-- ===== src/Runtime/Protobuf/Written.antt =====
-- From a writer to a reader: what the operations of the one have written, those of the other read.
use tiny_cplus.Prelude.{
  ℕ, ◌+◌, ◌^◌, ◌<◌, ◌≤◌, ◌≡◌, refl, ap, ◌∙◌, ◌⊎◌, Bool, List, ◌++◌, append_assoc, some, arith,
  length, length-append, get_or-append_left, get_or-append_right,
}
use mathlib.Core.Path.{subst}
use tiny_cplus.Machine.{word}
use tiny_cplus.Runtime.Protobuf.{limit}
use tiny_cplus.Runtime.Protobuf.Writer.{
  Writer, append, varint_bytes, fixed_bytes, write_varint, write_fixed, write_bytes,
}
use tiny_cplus.Runtime.Protobuf.Reader.{Reader, read_varint, read_fixed, read_bytes}
use tiny_cplus.Runtime.Protobuf.Varint.{HoldsAt, moved, read_varint-varint_bytes}
use tiny_cplus.Runtime.Protobuf.RoundTrip.{
  read_fixed-fixed_bytes, read_bytes-varint_bytes, length-fixed_bytes,
}
use tiny_cplus.Runtime.Protobuf.Append.{
  IsWritable, Appends, failed_before, refused, appended, append_lem,
}

-- A reader stands where a writer stood: its input goes on from there with what was written next.
pub record Follows (w w' : Writer) (r : Reader) : Type 0 where
  pub rest : List ℕ
  pub input : r.input ≡ w'.bytes ++ rest
  pub small : length r.input ≤ limit
  pub at : r.position ≡ length w.bytes
  pub fine : r.error ≡ 0

Appends-bytes :
    {realloc : ℕ → Bool} {w w' : Writer} {more : List ℕ}
    → Appends realloc w more w'
    → w'.error ≡ 0
    → IsWritable w' × (w'.bytes ≡ w.bytes ++ more)
Appends-bytes (failed_before bad e) fine = ground arith
Appends-bytes (refused why e) fine = ground arith
Appends-bytes (appended v e _ _) fine = (v, e)

pub append-bytes :
    (realloc : ℕ → Bool) (w : Writer) (more : List ℕ)
    → IsWritable w
    → (append realloc w more).error ≡ 0
    → IsWritable (append realloc w more) × ((append realloc w more).bytes ≡ w.bytes ++ more)
append-bytes realloc w more v fine = Appends-bytes (append_lem realloc w more v) fine

HoldsAt-Follows :
    (w w' : Writer) (r : Reader) (more : List ℕ)
    → Follows w w' r
    → w'.bytes ≡ w.bytes ++ more
    → HoldsAt r.input r.position more
HoldsAt-Follows w w' r more f e =
    rw (f.at, whole)
      (record {
        small = rw whole at f.small;
        within = omega (arith, length-append w.bytes (more ++ f.rest), length-append more f.rest);
        same = λ j lt.
            get_or-append_right w.bytes (more ++ f.rest) (length w.bytes + j) j 0 refl
            ∙ get_or-append_left more f.rest j 0 lt;
      })
  where
    whole : r.input ≡ w.bytes ++ (more ++ f.rest)
    whole = f.input ∙ ap (λ l. l ++ f.rest) e ∙ append_assoc w.bytes more f.rest

written_fixed :
    (realloc : ℕ → Bool) (w : Writer) (v count : ℕ)
    → (count ≡ 4) ⊎ (count ≡ 8)
    → write_fixed realloc w v count ≡ append realloc w (fixed_bytes count v)
unfolding write_fixed
written_fixed realloc w v count width = ground (arith, width)

-- After an error nothing is appended, and the error stays.
append-error :
    (realloc : ℕ → Bool) (w : Writer) (more : List ℕ)
    → (append realloc w more).error ≡ 0
    → w.error ≡ 0
unfolding append
append-error realloc w more h = ground arith

written_bytes :
    (realloc : ℕ → Bool) (w : Writer) (bytes : List ℕ)
    → IsWritable w
    → (write_bytes realloc w bytes).error ≡ 0
    → (write_bytes realloc w bytes).bytes ≡ w.bytes ++ (varint_bytes (length bytes) ++ bytes)
unfolding write_bytes write_varint
written_bytes realloc w bytes v fine =
    let (v', e) =
      append-bytes realloc w (varint_bytes (length bytes)) v (append-error realloc _ bytes fine) in
    let (_, e') = append-bytes realloc _ bytes v' fine in
    e' ∙ ap (λ l. l ++ bytes) e ∙ append_assoc w.bytes (varint_bytes (length bytes)) bytes

-- A uint64 that `tc_pb_write_varint` has written without an error to a sound writer is what `tc_pb_read_varint`
-- reads at that place, and the reader is then where the writer was after it.
pub varint_round_trip :
    (realloc : ℕ → Bool) (w : Writer) (v : ℕ) (r : Reader)
    → IsWritable w
    → v < word
    → (write_varint realloc w v).error ≡ 0
    → Follows w (write_varint realloc w v) r
    → (read_varint r ≡ (v, moved r (length (varint_bytes v))))
      × (r.position + length (varint_bytes v) ≡ length (write_varint realloc w v).bytes)
unfolding write_varint
varint_round_trip realloc w v r ok_ fits fine f =
    let (_, e) = append-bytes realloc w (varint_bytes v) ok_ fine in
    (
      read_varint-varint_bytes v r fits f.fine (HoldsAt-Follows w _ r (varint_bytes v) f e),
      omega (arith, f.at, ap length e, length-append w.bytes (varint_bytes v)),
    )

-- A number of 4 or 8 bytes that `tc_pb_write_fixed` has written without an error to a sound writer
-- is what `tc_pb_read_fixed` reads at that place, and the reader is then where the writer was.
pub fixed_round_trip :
    (realloc : ℕ → Bool) (w : Writer) (v count : ℕ) (r : Reader)
    → IsWritable w
    → (count ≡ 4) ⊎ (count ≡ 8)
    → v < 256 ^ count
    → (write_fixed realloc w v count).error ≡ 0
    → Follows w (write_fixed realloc w v count) r
    → (read_fixed r count ≡ (v, moved r count))
      × (r.position + count ≡ length (write_fixed realloc w v count).bytes)
fixed_round_trip realloc w v count r ok_ width fits fine f =
    let same = written_fixed realloc w v count width in
    let (_, e) =
      append-bytes realloc w (fixed_bytes count v) ok_ (subst (λ w'. w'.error ≡ 0) same fine) in
    (
      read_fixed-fixed_bytes count v r width fits f.fine
          (HoldsAt-Follows w _ r (fixed_bytes count v) (subst (λ w'. Follows w w' r) same f) e),
      omega (
        arith,
        f.at,
        ap (λ (w' : Writer). length w'.bytes) same,
        ap length e,
        length-append w.bytes (fixed_bytes count v),
        length-fixed_bytes count v,
      ),
    )

-- A byte string that `tc_pb_write_bytes` has written without an error to a sound writer is what
-- `tc_pb_read_bytes` reads at that place, and the reader is then where the writer was.
pub bytes_round_trip :
    (realloc : ℕ → Bool) (w : Writer) (bytes : List ℕ) (r : Reader)
    → IsWritable w
    → (write_bytes realloc w bytes).error ≡ 0
    → Follows w (write_bytes realloc w bytes) r
    → (read_bytes r ≡ (some bytes, moved r (length (varint_bytes (length bytes) ++ bytes))))
      × (r.position + length (varint_bytes (length bytes) ++ bytes)
          ≡ length (write_bytes realloc w bytes).bytes)
bytes_round_trip realloc w bytes r ok_ fine f =
    let e = written_bytes realloc w bytes ok_ fine in
    (
      read_bytes-varint_bytes bytes r f.fine
          (HoldsAt-Follows w _ r (varint_bytes (length bytes) ++ bytes) f e),
      omega
          (arith, f.at, ap length e, length-append w.bytes (varint_bytes (length bytes) ++ bytes)),
    )
