-- ===== src/Runtime/Grpc/Chunks.antt =====
-- Frames that arrive and are sent in chunks.
use tiny_cplus.Prelude.{
  ℕ, zero, suc, ◌+◌, ◌-◌, ◌≤◌, ◌≡◌, refl, sym, ap, ◌∙◌, Bool, List, [], ◌∷◌, ◌++◌, append_assoc,
  append-nil, length, length-append, take, drop, take-append-drop, min, arith,
}
use tiny_cplus.Runtime.Grpc.{limit}
use tiny_cplus.Runtime.Grpc.Message.{Buffer, buffer_add, unpack}
use tiny_cplus.Runtime.Grpc.Stream.{Stream, on_data, read_data}
use tiny_cplus.Runtime.Grpc.Frame.{IsSound}
use tiny_cplus.Runtime.Grpc.Packed.{frame, Ample, add-Ample, length-frame, unpack-frame}

-- The chunks of data that arrive for a stream, one after another
abbrev pub after_chunks : (ℕ → Bool) → List (List ℕ) → Stream → Stream
after_chunks realloc [] s = s
after_chunks realloc (c ∷ cs) s = after_chunks realloc cs (on_data realloc c s).1

abbrev pub joined : List (List ℕ) → List ℕ
joined [] = []
joined (c ∷ cs) = c ++ joined cs

on_data-Ample :
    (realloc : ℕ → Bool) (text : List ℕ) (s : Stream)
    → Ample realloc
    → IsSound s.incoming
    → length s.incoming.bytes + length text ≤ limit + 5
    → (on_data realloc text s).1 ≡ record s { incoming = (buffer_add realloc s.incoming text).1 }
unfolding on_data
on_data-Ample realloc text s m i l =
    let (f, g, h) = add-Ample realloc s.incoming text m i l in rw f refl

-- A stream whose chunks have arrived has them all, in their order, and is the same otherwise.
pub chunks-joined :
    (realloc : ℕ → Bool) (cs : List (List ℕ)) (s : Stream)
    → Ample realloc
    → IsSound s.incoming
    → length s.incoming.bytes + length (joined cs) ≤ limit + 5
    → (b : Buffer) × (after_chunks realloc cs s ≡ record s { incoming = b })
      × (b.bytes ≡ s.incoming.bytes ++ joined cs)
      × IsSound b
chunks-joined realloc [] s m i l = (s.incoming, refl, sym (append-nil s.incoming.bytes), i)
chunks-joined realloc (c ∷ cs) s m i l =
    let size = length-append c (joined cs) in
    let (f, g, h) = add-Ample realloc s.incoming c m i (omega arith) in
    let e = on_data-Ample realloc c s m i (omega arith) in
    let t : Stream = record s { incoming = (buffer_add realloc s.incoming c).1 } in
    let (b, p, q, r) =
      chunks-joined realloc cs t m h
        (omega (arith, ap length g, length-append s.incoming.bytes c)) in
    (
      b,
      ap (after_chunks realloc cs) e ∙ p,
      q ∙ ap (λ z. z ++ joined cs) g ∙ append_assoc s.incoming.bytes c (joined cs),
      r,
    )

-- However the frame of a message is cut into chunks on its way, `tc_grpc_unpack` of what has arrived
-- gives the message: for a stream without data so far, a message within the limit and memory enough.
pub chunks-unpack :
    (realloc : ℕ → Bool) (cs : List (List ℕ)) (s : Stream) (text : List ℕ)
    → Ample realloc
    → IsSound s.incoming
    → s.incoming.bytes ≡ []
    → joined cs ≡ frame text
    → length text ≤ limit
    → unpack (after_chunks realloc cs s).incoming.bytes ≡ (0, text)
chunks-unpack realloc cs s text m i e j l =
    let (b, p, q, r) =
      chunks-joined realloc cs s m i (omega (arith, ap length e, ap length j, length-frame text)) in
    ap (λ t. unpack t.incoming.bytes) p
    ∙ ap unpack (q ∙ ap (λ z. z ++ joined cs) e ∙ j)
    ∙ unpack-frame text l

-- What a stream sends in reads of these capacities, and the stream after them
abbrev pub sends : List ℕ → Stream → List (List ℕ) × Stream
sends [] s = ([], s)
sends (n ∷ ns) s = let r = read_data n s in (r.0 ∷ (sends ns r.2).0, (sends ns r.2).1)

drop-nil : (n : ℕ) → drop {A = ℕ} n [] ≡ []
drop-nil zero = refl
drop-nil (suc n) = refl

drop-drop : (n k : ℕ) (xs : List ℕ) → drop n (drop k xs) ≡ drop (k + n) xs
drop-drop n zero xs = ap (λ j. drop j xs) (omega arith)
drop-drop n (suc k) [] = drop-nil n ∙ sym (drop-nil (suc k + n))
drop-drop n (suc k) (x ∷ xs) =
    let e : suc k + n ≡ suc (k + n) = omega arith in rw e (drop-drop n k xs)

read_data-rest :
    (n : ℕ) (s : Stream)
    → ((read_data n s).0 ++ drop (read_data n s).2.sent s.outgoing.bytes
        ≡ drop s.sent s.outgoing.bytes)
      × ((read_data n s).2.outgoing ≡ s.outgoing)
unfolding read_data
read_data-rest n s =
    let k : ℕ = min (length s.outgoing.bytes - s.sent) n in
    (
      ap (λ z. take k (drop s.sent s.outgoing.bytes) ++ z)
            (sym (drop-drop k s.sent s.outgoing.bytes))
          ∙ take-append-drop k (drop s.sent s.outgoing.bytes),
      refl,
    )

-- Whatever the capacities of the reads of `tc_grpc_read_data`, the bytes that they hand over and
-- those left to be sent are the ones that were left before.
pub sends-rest :
    (ns : List ℕ) (s : Stream)
    → (joined (sends ns s).0 ++ drop (sends ns s).1.sent s.outgoing.bytes
        ≡ drop s.sent s.outgoing.bytes)
      × ((sends ns s).1.outgoing ≡ s.outgoing)
sends-rest [] s = (refl, refl)
sends-rest (n ∷ ns) s =
    let (e, f) = read_data-rest n s in
    let (g, h) = sends-rest ns (read_data n s).2 in
    let end : ℕ = (sends ns (read_data n s).2).1.sent in
    (
      append_assoc (read_data n s).0 (joined (sends ns (read_data n s).2).0)
            (drop end s.outgoing.bytes)
          ∙ ap (λ z. (read_data n s).0 ++ z)
              (ap (λ b. joined (sends ns (read_data n s).2).0 ++ drop end b.bytes) (sym f)
                ∙ g
                ∙ ap (λ b. drop (read_data n s).2.sent b.bytes) f)
          ∙ e,
      h ∙ f,
    )
