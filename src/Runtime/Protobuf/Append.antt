-- ===== src/Runtime/Protobuf/Append.antt =====
-- Every write goes through `tc_pb_append`: all of it is appended, or an error is set.
use native.Mathlib.Nat.{pow-suc}
use tiny_cplus.Prelude.{
  ℕ, zero, suc, ◌+◌, ◌-◌, ◌*◌, ◌%◌, ◌^◌, ◌<◌, ◌≤◌, ◌≡◌, ◌≢◌, refl, ap, ◌⊎◌, inl, inr, Bool, true,
  false, Bool-cases, List, ◌++◌, arith, length, length-append, ltb, ltb→lt, ltb→ge, ◌==◌, ==_iff,
  if◌then◌else◌,
}
use tiny_cplus.Machine.{word, add_size, sub_size, mul_size}
use tiny_cplus.Runtime.Protobuf.{limit}
use tiny_cplus.Runtime.Protobuf.Writer.{Writer, doubled, wanted, append}

pub record IsWritable (w : Writer) : Type 0 where
  pub inside : length w.bytes ≤ w.capacity
  pub short : length w.bytes ≤ limit
  pub small : w.capacity ≤ 2 * limit
  pub granted : (w.capacity ≡ 0) ⊎ (128 ≤ w.capacity)

-- The doubling reaches what is needed, and stays below twice that where it doubles at all.
doubled_lem :
    (fuel capacity need : ℕ)
    → need ≤ capacity * 2 ^ fuel
    → need ≤ limit
    → capacity ≤ 2 * limit
    → (need ≤ doubled fuel capacity need)
      × (doubled fuel capacity need ≤ 2 * limit)
      × (capacity ≤ doubled fuel capacity need)
unfolding doubled mul_size
doubled_lem zero capacity need h n c = (omega arith, c, omega arith)
doubled_lem (suc fuel) capacity need h n c = elim (Bool-cases (ltb capacity need)) [
  | inr done ↦ rw (done, doubled) (ltb→ge capacity need done, c, omega arith)
  | inl more ↦
      let lt : capacity < need = ltb→lt capacity need more in
      let e : capacity * 2 % word ≡ capacity * 2 = omega arith in
      let (enough, small, grew) =
        doubled_lem fuel (capacity * 2) need
          (omega (arith, h, ap (λ (t : ℕ). capacity * t) (pow-suc 2 fuel))) n (omega arith) in
      rw (more, e, doubled) (enough, small, omega arith)
]

first :
    (w : Writer) {n : ℕ}
    → IsWritable w
    → (if w.capacity == 0 then 128 else w.capacity) ≤ n
    → 128 ≤ n
first w v h = ground (arith, v.granted)

-- What is wanted is enough for a message below the limit.
wanted_lem :
    (w : Writer) (need : ℕ)
    → IsWritable w
    → need ≤ limit
    → (need ≤ wanted w need) × (wanted w need ≤ 2 * limit) × (128 ≤ wanted w need)
unfolding wanted
wanted_lem w need v h =
    let (enough, small, grew) =
      doubled_lem 20 (if w.capacity == 0 then 128 else w.capacity) need (ground (arith, v.granted))
        h (ground (arith, v.small)) in
    (enough, small, first w v grew)

-- What one `tc_pb_append` may do.
pub data Appends (realloc : ℕ → Bool) (w : Writer) (more : List ℕ) : Writer → Type 0 where
  failed_before : {w' : Writer} → w.error ≢ 0 → w' ≡ w → Appends realloc w more w'
  refused :
      {w' : Writer}
      → (limit < length w.bytes + length more)
        ⊎ (realloc (wanted w (length w.bytes + length more)) ≡ false)
      → w' ≡ record w { error = 8 }
      → Appends realloc w more w'
  appended :
      {w' : Writer}
      → IsWritable w'
      → w'.bytes ≡ w.bytes ++ more
      → w'.error ≡ 0
      → w.error ≡ 0
      → Appends realloc w more w'

needed :
    (w : Writer) (more : List ℕ)
    → IsWritable w
    → length more ≤ limit - length w.bytes
    → add_size (length w.bytes) (length more) ≡ length w.bytes + length more
unfolding add_size
needed w more v h = omega (arith, v.short)

fits :
    (w : Writer) (more : List ℕ) {b : Bool}
    → IsWritable w
    → ltb (sub_size limit (length w.bytes)) (length more) ≡ b
    → ltb (limit - length w.bytes) (length more) ≡ b
unfolding sub_size
fits w more v h =
    let e : (limit + word - length w.bytes) % word ≡ limit - length w.bytes =
      omega (arith, v.short) in
    rw e at h

zero_error : (w : Writer) → (w.error == 0) ≡ true → w.error ≡ 0
zero_error w h = (==_iff w.error 0).0 h

longer :
    (w : Writer) (more : List ℕ) (capacity : ℕ)
    → IsWritable w
    → length w.bytes + length more ≤ capacity
    → capacity ≤ 2 * limit
    → (capacity ≡ 0) ⊎ (128 ≤ capacity)
    → length w.bytes + length more ≤ limit
    → IsWritable (record w { bytes = w.bytes ++ more; capacity = capacity })
longer w more capacity v enough small granted short = record {
  inside = omega (arith, length-append w.bytes more);
  short = omega (arith, length-append w.bytes more);
  small = small;
  granted = granted;
}

-- On a sound writer `tc_pb_append` appends all the bytes and stays sound, or it leaves the message
-- as it is: with the error that was there, or with 8 where the message would pass the limit or
-- realloc fails.
pub append_lem :
    (realloc : ℕ → Bool) (w : Writer) (more : List ℕ)
    → IsWritable w
    → Appends realloc w more (append realloc w more)
unfolding append
append_lem realloc w more v = elim (Bool-cases (w.error == 0)) [
  | inr bad ↦ failed_before (ground arith) (rw (bad, append))
  | inl fine ↦ elim (Bool-cases (ltb (sub_size limit (length w.bytes)) (length more))) [
    | inl long ↦
        refused (inl (omega (arith, ltb→lt _ _ (fits w more v long), v.short)))
          (rw (fine, long, append))
    | inr short ↦
        let room = ltb→ge (limit - length w.bytes) (length more) (fits w more v short) in
        let need = needed w more v room in
        elim (Bool-cases (ltb w.capacity (length w.bytes + length more))) [
          | inr held ↦
              rw (fine, short, need, held, append)
                (appended
                  (longer w more w.capacity v (ltb→ge _ _ held) v.small v.granted
                    (omega (arith, room, v.short)))
                  refl (zero_error w fine) (zero_error w fine))
          | inl grows ↦
              let (enough, small, start) =
                wanted_lem w (length w.bytes + length more) v (omega (arith, room, v.short)) in
              elim (Bool-cases (realloc (wanted w (length w.bytes + length more)))) [
                | inr none_ ↦ refused (inr none_) (rw (fine, short, need, grows, none_, append))
                | inl given ↦
                    rw (fine, short, need, grows, given, append)
                      (appended
                        (longer w more _ v enough small (inr start) (omega (arith, room, v.short)))
                        refl (zero_error w fine) (zero_error w fine))
              ]
        ]
  ]
]
