-- ===== src/Runtime/Grpc/Statuses.antt =====
-- The statuses of gRPC: from 0 to 16.
use mathlib.Core.Path.{subst}
use native.Mathlib.Decide.{dec_lt}
use tiny_cplus.Prelude.{
  inl, inr, ℕ, zero, suc, ◌+◌, ◌<◌, ◌≤◌, ◌≡◌, refl, sym, ap, ◌∙◌, Bool, true, false, ◌&&◌, ◌||◌,
  not, Option, none, some, List, length, ltb, leb, ◌==◌, ==_iff, if◌then◌else◌, if_cases, ltb→ge,
  Option-cases, arith,
}
use tiny_cplus.Prelude.Text.{codes, same, decimal, digits}
use tiny_cplus.Prelude.Int.{ℤ, pos, negsuc, ltb_ℤ, pos_part}
use tiny_cplus.Machine.{add_size}
use tiny_cplus.Runtime.Grpc.{limit}
use tiny_cplus.Runtime.Grpc.Message.{Response, respond}
use tiny_cplus.Runtime.Grpc.Stream.{Stream, digits_of, parse_status, on_header, trailer}

abbrev all_below : ℕ → (ℕ → Bool) → Bool
all_below zero test = true
all_below (suc n) test = test n && all_below n test

and_both : (a b : Bool) → (a && b) ≡ true → (a ≡ true) × (b ≡ true)
and_both true true e = (refl, refl)
and_both true false e = absurd (cc e)
and_both false b e = absurd (cc e)

below : (n : ℕ) (test : ℕ → Bool) (k : ℕ) → all_below n test ≡ true → k < n → test k ≡ true
below zero test k e h = absurd (omega arith)
below (suc n) test k e h =
    let (a, b) = and_both (test n) (all_below n test) e in
    elim (dec_lt k n) [
      | yes l ↦ below n test k b l
      | no l ↦ let same_number : k ≡ n = omega arith in rw same_number a
    ]

reads_back : ℕ → Bool
reads_back n = parse_status (decimal n) == n

all_read_back : all_below 17 reads_back ≡ true
unfolding reads_back parse_status digits_of digits
all_read_back = refl

-- A status is read from the trailer as the server has sent it.
pub trailer-parse_status :
    (s : Stream) (text : List ℕ)
    → s.status ≤ 16
    → trailer true true s ≡ some text
    → parse_status text ≡ s.status
unfolding reads_back trailer
trailer-parse_status s text h e =
    let is : decimal s.status ≡ text = cc e in
    ap parse_status (sym is)
    ∙ (==_iff _ _).0 (below 17 reads_back s.status all_read_back (omega arith))

short : ℕ → Bool
short n = leb (length (decimal n)) 2

all_short : all_below 17 short ≡ true
unfolding short digits
all_short = refl

pub length-decimal : (n : ℕ) → n ≤ 16 → length (decimal n) ≤ 2
unfolding short
length-decimal n h = let b = below 17 short n all_short (omega arith) in ground arith

parse_status-bound : (value : List ℕ) → parse_status value ≤ 16
unfolding parse_status
parse_status-bound value =
    if_cases (λ n. n ≤ 16) (length value == 0 || ltb 2 (length value)) (λ e. omega arith)
      (λ e. elim (Option-cases (digits_of 0 value)) [
        | inl f ↦ rw f (omega arith)
        | inr (n, f) ↦
            rw f (if_cases (λ k. k ≤ 16) (ltb 16 n) (λ g. omega arith) (λ g. ltb→ge 16 n g))
      ])

Known : Bool × Stream → Type 0
Known r = r.1.status ≤ 16

-- Whatever headers arrive, a stream keeps a known status.
pub on_header-status :
    (copied : Bool) (name value : List ℕ) (s : Stream)
    → s.status ≤ 16
    → (on_header copied name value s).1.status ≤ 16
unfolding on_header Known
on_header-status copied name value s h =
    if_cases Known (ltb 16384 (add_size s.header_bytes (length name + length value))) (λ a. h)
      (λ a.
        if_cases Known (same name (codes ":path"))
          (λ b. if_cases Known (ltb 4096 (length value)) (λ c. h) (λ c. h))
          (λ b.
            if_cases Known (same name (codes ":status")) (λ c. h)
              (λ c.
                if_cases Known (same name (codes "content-type")) (λ d. h)
                  (λ d.
                    if_cases Known (same name (codes "grpc-status")) (λ e. parse_status-bound value)
                      (λ e. h)))))

KnownResponse : Response → Type 0
KnownResponse r = (r.status ≤ 16) × (length r.text ≤ limit)

clamped : (z : ℤ) → (if ltb_ℤ z (pos 0) || ltb_ℤ (pos 16) z then 2 else pos_part z) ≤ 16
clamped (pos n) = ground arith
clamped (negsuc n) = ground arith

KnownIn : Option Response → Type 0
KnownIn none = Unit
KnownIn (some r) = KnownResponse r

respond-KnownIn :
    (memory copied : Bool) (text : List ℕ) (status : ℤ)
    → KnownIn (respond memory copied text status)
unfolding respond KnownIn KnownResponse
respond-KnownIn memory copied text status =
    if_cases KnownIn memory
      (λ m.
        if_cases KnownResponse (ltb limit (length text) || not copied)
          (λ f. (omega arith, omega arith)) (λ f. (clamped status, ground arith)))
      (λ m. tt)

-- A response has a status from 0 to 16 and a text within the limit, whatever it was made from.
pub respond-status :
    (memory copied : Bool) (text : List ℕ) (status : ℤ) (r : Response)
    → respond memory copied text status ≡ some r
    → (r.status ≤ 16) × (length r.text ≤ limit)
unfolding KnownIn KnownResponse
respond-status memory copied text status r e =
    subst KnownIn e (respond-KnownIn memory copied text status)
