-- ===== src/Runtime/Grpc/Routes.antt =====
-- The routes of a server: each path has one.
use tiny_cplus.Prelude.{
  ℕ, ◌≡◌, ◌≢◌, refl, sym, inl, inr, Bool, true, false, Bool-cases, ◌&&◌, ◌||◌, not, Option, none,
  some, List, [], ◌∷◌, length, get_or, ltb, ◌==◌, if_cases,
}
use tiny_cplus.Prelude.Text.{same, same_self, same_is}
use tiny_cplus.Runtime.Grpc.Message.{Response}
use tiny_cplus.Runtime.Grpc.Server.{Route, find_route, add_route, server_add}

-- No two routes have the same path.
abbrev pub Distinct : List Route → Type 0
Distinct [] = Unit
Distinct (r ∷ rest) = (find_route r.path rest ≡ none) × Distinct rest

-- Whether a path may be added
abbrev pub refusable : Bool → List ℕ → Bool
refusable running path =
    length path == 0 || not (get_or path 0 0 == 47) || ltb 4096 (length path) || running

-- What an addition to the routes comes to.
pub data Routed (running memory copied : Bool) (path : List ℕ) (handler : List ℕ → Option Response)
    (routes : List Route) : ℕ × List Route → Type 0 where
  refused :
      {r : ℕ × List Route}
      → refusable running path ≡ true
      → r ≡ (1, routes)
      → Routed running memory copied path handler routes r
  taken :
      {r : ℕ × List Route} (old : Route)
      → refusable running path ≡ false
      → find_route path routes ≡ some old
      → r ≡ (2, routes)
      → Routed running memory copied path handler routes r
  no_memory :
      {r : ℕ × List Route}
      → refusable running path ≡ false
      → find_route path routes ≡ none
      → (memory && copied) ≡ false
      → r ≡ (8, routes)
      → Routed running memory copied path handler routes r
  added :
      {r : ℕ × List Route}
      → refusable running path ≡ false
      → find_route path routes ≡ none
      → (memory && copied) ≡ true
      → r.0 ≡ 0
      → Distinct r.1
      → find_route path r.1 ≡ some (record { path = path; handler = handler })
      → ((other : List ℕ) → other ≢ path → find_route other r.1 ≡ find_route other routes)
      → Routed running memory copied path handler routes r

add_new :
    (running memory copied : Bool) (path : List ℕ) (handler : List ℕ → Option Response)
    (routes : List Route)
    → Distinct routes
    → refusable running path ≡ false
    → find_route path routes ≡ none
    → (memory && copied) ≡ true
    → Routed running memory copied path handler routes
        (0, record { path = path; handler = handler } ∷ routes)
unfolding find_route
add_new running memory copied path handler routes d g e m =
    added g e m refl (e, d) (rw (same_self path) refl)
      (λ other n. elim (Bool-cases (same path other)) [
        | inl f ↦ absurd (n (sym (same_is path other f)))
        | inr f ↦ rw f refl
      ])

added_or_not :
    (running memory copied : Bool) (path : List ℕ) (handler : List ℕ → Option Response)
    (routes : List Route) (o : Option Route)
    → Distinct routes
    → refusable running path ≡ false
    → find_route path routes ≡ o
    → Routed running memory copied path handler routes
        (add_route o (memory && copied) path handler routes)
unfolding add_route
added_or_not running memory copied path handler routes (some old) d g e = taken old g e refl
added_or_not running memory copied path handler routes none d g e =
    if_cases (Routed running memory copied path handler routes) (memory && copied)
      (λ m. add_new running memory copied path handler routes d g e m) (λ m. no_memory g e m refl)

-- On routes with distinct paths `tc_grpc_server_add` gives 1 for a path that is empty, does not begin
-- with a slash or is longer than 4096 bytes, and for any path while the server runs; else 2 for a
-- path that has a route; else 8 where memory is missing, and leaves the routes each time. Only where
-- none of this is so, it gives 0: the paths stay distinct, the path is found with its handler, and
-- every other path as before.
pub server_add-Routed :
    (running memory copied : Bool) (path : List ℕ) (handler : List ℕ → Option Response)
    (routes : List Route)
    → Distinct routes
    → Routed running memory copied path handler routes
        (server_add running memory copied path handler routes)
unfolding server_add
server_add-Routed running memory copied path handler routes d =
    if_cases (Routed running memory copied path handler routes) (refusable running path)
      (λ e. refused e refl)
      (λ g.
        added_or_not running memory copied path handler routes (find_route path routes) d g refl)
