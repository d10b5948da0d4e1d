-- ===== src/Runtime/Protobuf/Skip.antt =====
-- Skipping a field, groups in groups included, always ends inside the input.
use tiny_cplus.Prelude.{
  ℕ, zero, suc, ◌+◌, ◌-◌, ◌*◌, ◌<◌, ◌≤◌, ◌≡◌, refl, ap, ◌∙◌, ◌⊎◌, inl, inr, Bool, true, false,
  Bool-cases, Option, some, arith, length, ltb, ◌==◌, if◌then◌else◌,
}
use tiny_cplus.Runtime.Protobuf.Reader.{
  Reader, fail, done, read_varint, read_fixed, read_bytes, next, skip_depth, skip_group, skip,
}
use tiny_cplus.Runtime.Protobuf.Progress.{
  IsSound, Progress, Progress-IsSound, Progress-fail, Progress-then-fail, Progress-trans,
  Progress-weaken, Progress-read_varint, Progress-read_fixed, Progress-read_bytes, Progress-next,
  done_cases,
}

-- The bytes that a reader may still take: none after an error.
abbrev pub remaining : Reader → ℕ
remaining r = if r.error == 0 then length r.input - r.position else 0

remaining-le : {r s : Reader} → Progress 0 r s → remaining s ≤ remaining r
remaining-le {r} {s} p = ground (arith, p.taken, p.forward, ap length p.same)

remaining-lt :
    {r s : Reader}
    → Progress 1 r s
    → r.error ≡ 0
    → r.position < length r.input
    → remaining s < remaining r
remaining-lt {r} {s} p fine h = ground (arith, p.taken, p.forward, ap length p.same)

-- The result of a skip that ends.
abbrev Ends : Reader → Option Reader → Type 0
Ends r result = (s : Reader) × (result ≡ some s) × Progress 0 r s

skip_depth_cases :
    (fuel : ℕ) (r : Reader) (field depth : ℕ)
    → IsSound r
    → Ends r (skip_depth (suc fuel) r field depth)
      ⊎ (skip_depth (suc fuel) r field depth ≡ skip_group fuel r field depth)
unfolding skip_depth
skip_depth_cases fuel r field depth v = elim (Bool-cases (ltb 64 depth)) [
  | inl deep ↦ inl (fail r, rw (deep, skip_depth), Progress-fail 0 r v)
  | inr a ↦ elim (Bool-cases (r.wire == 0)) [
    | inl w ↦ inl ((read_varint r).1, rw (a, w, skip_depth), Progress-read_varint r v)
    | inr b ↦ elim (Bool-cases (r.wire == 1)) [
      | inl w ↦ inl ((read_fixed r 8).1, rw (a, b, w, skip_depth), Progress-read_fixed r 8 v)
      | inr c ↦ elim (Bool-cases (r.wire == 2)) [
        | inl w ↦ inl ((read_bytes r).1, rw (a, b, c, w, skip_depth), Progress-read_bytes r v)
        | inr d ↦ elim (Bool-cases (r.wire == 5)) [
          | inl w ↦
              inl ((read_fixed r 4).1, rw (a, b, c, d, w, skip_depth), Progress-read_fixed r 4 v)
          | inr e ↦ elim (Bool-cases (r.wire == 3)) [
            | inl w ↦ inr (rw (a, b, c, d, e, w, skip_depth))
            | inr f ↦ inl (fail r, rw (a, b, c, d, e, f, skip_depth), Progress-fail 0 r v)
          ]
        ]
      ]
    ]
  ]
]

-- One round of the loop over a group, by its three ways to go on.
group_done :
    (fuel : ℕ) (r : Reader) (field depth : ℕ)
    → done r ≡ true
    → skip_group (suc fuel) r field depth ≡ some (fail r)
unfolding skip_group
group_done fuel r field depth h = rw (h, skip_group)

group_closed :
    (fuel : ℕ) (r : Reader) (field depth : ℕ)
    → done r ≡ false
    → ((next r).1.wire == 4) ≡ true
    → skip_group (suc fuel) r field depth
      ≡ some (if field == (next r).0 then (next r).1 else fail (next r).1)
unfolding skip_group
group_closed fuel r field depth h w = rw (h, w, skip_group)

group_inner :
    (fuel : ℕ) (r : Reader) (field depth : ℕ) {s : Reader}
    → done r ≡ false
    → ((next r).1.wire == 4) ≡ false
    → skip_depth fuel (next r).1 (next r).0 (depth + 1) ≡ some s
    → skip_group (suc fuel) r field depth ≡ skip_group fuel s field depth
unfolding skip_group
group_inner fuel r field depth h w e = rw (h, w, e, skip_group)

Ends-close : (r s : Reader) (b : Bool) → Progress 0 r s → Ends r (some (if b then s else fail s))
Ends-close r s true p = (s, refl, p)
Ends-close r s false p = (fail s, refl, Progress-then-fail 0 p)

mutual
  Ends-skip_depth :
      (fuel : ℕ) (r : Reader) (field depth : ℕ)
      → IsSound r
      → 2 * remaining r + 2 ≤ fuel
      → Ends r (skip_depth fuel r field depth)
  Ends-skip_depth zero r field depth v h = absurd (omega arith)
  Ends-skip_depth (suc fuel) r field depth v h = elim (skip_depth_cases fuel r field depth v) [
    | inl ends ↦ ends
    | inr group ↦ rw group (Ends-skip_group fuel r field depth v (omega arith))
  ]

  Ends-skip_group :
      (fuel : ℕ) (r : Reader) (field depth : ℕ)
      → IsSound r
      → 2 * remaining r + 1 ≤ fuel
      → Ends r (skip_group fuel r field depth)
  Ends-skip_group zero r field depth v h = absurd (omega arith)
  Ends-skip_group (suc fuel) r field depth v h = elim (Bool-cases (done r)) [
    | inl over ↦ (fail r, group_done fuel r field depth over, Progress-fail 0 r v)
    | inr open_ ↦
        let p = Progress-next r v open_ in
        let q = Progress-weaken 0 1 (omega arith) p in
        let w = Progress-IsSound v p in
        elim (Bool-cases ((next r).1.wire == 4)) [
          | inl closed ↦
              rw (group_closed fuel r field depth open_ closed)
                (Ends-close r (next r).1 (field == (next r).0) q)
          | inr inner ↦
              let (fine, more) = done_cases r v open_ in
              let less = remaining-lt p fine more in
              let (s, e, t) =
                Ends-skip_depth fuel (next r).1 (next r).0 (depth + 1) w (omega arith) in
              let (u, e', t') =
                Ends-skip_group fuel s field depth (Progress-IsSound w t)
                  (omega (arith, remaining-le t)) in
              (
                u,
                group_inner fuel r field depth open_ inner e ∙ e',
                Progress-trans 0 0 r s u (Progress-trans 0 0 r (next r).1 s q t) t',
              )
        ]
  ]

-- `tc_pb_skip` ends on every input, however its groups are nested, and leaves the reader on the
-- same input, no further back and not past its end, with its error as before or set to 3.
pub skip_lem :
    (r : Reader) (field : ℕ) → IsSound r → (s : Reader) × (skip r field ≡ some s) × Progress 0 r s
unfolding skip
skip_lem r field v = Ends-skip_depth (2 * length r.input + 2) r field 0 v (ground arith)
