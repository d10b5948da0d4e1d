-- ===== src/Runtime/Protobuf/Progress.antt =====
-- The reader never leaves its input, every tag takes a byte of it, and so skipping a field ends.
use tiny_cplus.Prelude.{
  ℕ, zero, suc, ◌+◌, ◌<◌, ◌≤◌, ◌≡◌, refl, ◌∙◌, ◌⊎◌, inl, inr, Bool, true, false, Bool-cases, arith,
  length, ltb, ltb→ge, ◌==◌, get_or, ◌^◌, ◌/◌, ◌%◌, not, ◌||◌, ◌&&◌,
}
use Prim.Native.Nat.{bit_and}
use tiny_cplus.Runtime.Protobuf.Varint.{reads_on}
use tiny_cplus.Machine.{word, add_size, sub_size}
use tiny_cplus.Runtime.Protobuf.Reader.{
  Reader, fail, advanced, done, varint_from, read_varint, fixed_from, read_fixed, slice, read_bytes,
  tagged, next,
}

pub record IsSound (r : Reader) : Type 0 where
  pub within : r.position ≤ length r.input
  pub small : length r.input < word

-- From `r` to `s` the position moves forward inside the same input, by `k` bytes at least unless
-- an error is set.
pub record Progress (k : ℕ) (r s : Reader) : Type 0 where
  pub same : s.input ≡ r.input
  pub forward : r.position ≤ s.position
  pub within : s.position ≤ length s.input
  pub taken : (s.error ≡ 3) ⊎ ((s.error ≡ r.error) × (r.position + k ≤ s.position))

pub Progress-IsSound : {k : ℕ} {r s : Reader} → IsSound r → Progress k r s → IsSound s
Progress-IsSound v p = record { within = p.within; small = rw p.same v.small }

pub Progress-fail : (k : ℕ) (r : Reader) → IsSound r → Progress k r (fail r)
Progress-fail k r v = record {
  same = refl;
  forward = omega arith;
  within = v.within;
  taken = inl refl;
}

pub Progress-trans :
    (j k : ℕ) (r s t : Reader) → Progress j r s → Progress k s t → Progress (j + k) r t
Progress-trans j k r s t p q = record {
  same = q.same ∙ p.same;
  forward = omega (arith, p.forward, q.forward);
  within = q.within;
  taken = ground (arith, p.taken, q.taken, p.forward, q.forward);
}

Progress-advanced :
    (n : ℕ) (r : Reader) → IsSound r → r.position + n ≤ length r.input → Progress n r (advanced r n)
unfolding add_size
Progress-advanced n r v h = record {
  same = refl;
  forward = omega (arith, v.small);
  within = omega (arith, v.small);
  taken = inr (refl, omega (arith, v.small));
}

pub Progress-weaken : (j k : ℕ) {r s : Reader} → j ≤ k → Progress k r s → Progress j r s
Progress-weaken j k h p = record {
  same = p.same;
  forward = p.forward;
  within = p.within;
  taken = ground (arith, p.taken);
}

pub Progress-then-fail : (k : ℕ) {r s : Reader} → Progress k r s → Progress k r (fail s)
Progress-then-fail k p = record {
  same = p.same;
  forward = p.forward;
  within = p.within;
  taken = inl refl;
}

-- A byte and then more.
one_more :
    (r s : Reader)
    → IsSound r
    → ltb r.position (length r.input) ≡ true
    → (IsSound (advanced r 1) → Progress 1 (advanced r 1) s)
    → Progress 1 r s
one_more r s v h p =
    let first : Progress 1 r (advanced r 1) = Progress-advanced 1 r v (ground arith) in
    Progress-weaken 1 2 (omega arith)
      (Progress-trans 1 1 r (advanced r 1) s first (p (Progress-IsSound v first)))

Progress-varint_from :
    (left i value : ℕ) (r : Reader) → IsSound r → Progress 1 r (varint_from left i value r).1
unfolding varint_from
Progress-varint_from zero i value r v = Progress-fail 1 r v
Progress-varint_from (suc left) i value r v = elim (Bool-cases (ltb r.position (length r.input))) [
  | inr empty ↦ rw (empty, varint_from) (Progress-fail 1 r v)
  | inl some_ ↦ elim (Bool-cases (i == 9 && ltb 1 (get_or r.input r.position 0))) [
    | inl long ↦
        rw (some_, long, varint_from)
          (Progress-then-fail 1 (Progress-advanced 1 r v (ground arith)))
    | inr fits ↦ elim (Bool-cases (bit_and (get_or r.input r.position 0) 128 == 0)) [
      | inl last ↦ rw (some_, fits, last, varint_from) (Progress-advanced 1 r v (ground arith))
      | inr more ↦
          rw (some_, fits, more, varint_from)
            (one_more r _ v some_ (Progress-varint_from left (i + 1) _ (advanced r 1)))
    ]
  ]
]

Progress-stay : (r : Reader) → IsSound r → Progress 0 r r
Progress-stay r v = record {
  same = refl;
  forward = omega arith;
  within = v.within;
  taken = inr (refl, omega arith);
}

pub Progress-read_varint : (r : Reader) → IsSound r → Progress 0 r (read_varint r).1
unfolding read_varint
Progress-read_varint r v = elim (Bool-cases (r.error == 0)) [
  | inl fine ↦
      rw (fine, read_varint) (Progress-weaken 0 1 (omega arith) (Progress-varint_from 10 0 0 r v))
  | inr bad ↦ rw (bad, read_varint) (Progress-stay r v)
]

room :
    (r : Reader) (left : ℕ)
    → IsSound r
    → r.position + suc left ≤ length r.input
    → (advanced r 1).position + left ≤ length r.input
unfolding add_size
room r left v h = omega (arith, v.small)

Progress-fixed_from :
    (left i value : ℕ) (r : Reader)
    → IsSound r
    → r.position + left ≤ length r.input
    → Progress left r (fixed_from left i value r).1
unfolding fixed_from
Progress-fixed_from zero i value r v h = Progress-stay r v
Progress-fixed_from (suc left) i value r v h =
    let first : Progress 1 r (advanced r 1) = Progress-advanced 1 r v (omega arith) in
    Progress-weaken (suc left) (1 + left) (omega arith) (
      Progress-trans 1 left r (advanced r 1) _ first (
        Progress-fixed_from left (i + 1) _ (advanced r 1) (Progress-IsSound v first)
          (room r left v h)))

left_over :
    (r : Reader) (n : ℕ) (b : Bool)
    → IsSound r
    → (b || ltb (sub_size (length r.input) r.position) n) ≡ false
    → r.position + n ≤ length r.input
unfolding sub_size
left_over r n true v h = cc
left_over r n false v h =
    omega (arith, v.within, v.small, ltb→ge (sub_size (length r.input) r.position) n h)

pub Progress-read_fixed : (r : Reader) (count : ℕ) → IsSound r → Progress 0 r (read_fixed r count).1
unfolding read_fixed
Progress-read_fixed r count v = elim (Bool-cases (r.error == 0)) [
  | inr bad ↦ rw (bad, read_fixed) (Progress-stay r v)
  | inl fine ↦
      elim (Bool-cases (
        not (count == 4) && not (count == 8) || ltb (sub_size (length r.input) r.position) count)) [
          | inl short ↦ rw (fine, short, read_fixed) (Progress-fail 0 r v)
          | inr enough ↦
              rw (fine, enough, read_fixed)
                (Progress-weaken 0 count (omega arith) (
                  Progress-fixed_from count 0 0 r v
                    (left_over r count (not (count == 4) && not (count == 8)) v enough)))
        ]
]

Progress-slice : (r : Reader) (n : ℕ) → IsSound r → Progress 0 r (slice r n).1
unfolding slice
Progress-slice r n v =
    elim (Bool-cases (not (r.error == 0) || ltb (sub_size (length r.input) r.position) n)) [
      | inl bad ↦ rw (bad, slice) (Progress-fail 0 r v)
      | inr fine ↦
          rw (fine, slice)
            (Progress-weaken 0 n (omega arith)
              (Progress-advanced n r v (left_over r n (not (r.error == 0)) v fine)))
    ]

pub Progress-read_bytes : (r : Reader) → IsSound r → Progress 0 r (read_bytes r).1
unfolding read_bytes
Progress-read_bytes r v =
    let first = Progress-read_varint r v in
    Progress-trans 0 0 r (read_varint r).1 _ first
      (Progress-slice (read_varint r).1 (read_varint r).0 (Progress-IsSound v first))

pub done_cases :
    (r : Reader) → IsSound r → done r ≡ false → (r.error ≡ 0) × (r.position < length r.input)
unfolding done
done_cases r v h = ground arith

Progress-tagged :
    (k : ℕ) (r : Reader) (result : ℕ × Reader)
    → Progress k r result.1
    → Progress k r (tagged result).1
unfolding tagged
Progress-tagged k r (tag, s) p =
    elim (Bool-cases
      (not (s.error == 0) || tag / 2 ^ 3 == 0 || ltb 536870911 (tag / 2 ^ 3) || ltb 5 wire)) [
        | inl bad ↦ rw (bad, tagged) (Progress-then-fail k (rewired wire p))
        | inr good ↦ rw (good, tagged) (rewired wire p)
      ]
  where
    wire : ℕ
    wire = bit_and (tag % 2 ^ 32) 7

    rewired : {r s : Reader} (n : ℕ) → Progress k r s → Progress k r (record s { wire = n })
    rewired n p = record { same = p.same; forward = p.forward; within = p.within; taken = p.taken }

reads : (r : Reader) → IsSound r → done r ≡ false → Progress 1 r (read_varint r).1
reads r v h =
    let e : read_varint r ≡ varint_from 10 0 0 r = reads_on r (done_cases r v h).0 in
    rw e (Progress-varint_from 10 0 0 r v)

-- On a sound reader that is not at its end `tc_pb_next` takes at least a byte of the input or sets
-- the error, and the reader stays sound on the same input.
pub Progress-next : (r : Reader) → IsSound r → done r ≡ false → Progress 1 r (next r).1
unfolding next
Progress-next r v h = rw (h, next) (Progress-tagged 1 r (read_varint r) (reads r v h))
