-- ===== src/P2p/Connection/Wire.antt =====
-- From the writer of one connection, in src/p2p/connection.rs, to the stream of the other one, in
-- src/p2p/connection/message_stream.rs.
use mathlib.Core.List.{append_assoc, append-nil}
use risq.Base.{
  ℕ, zero, suc, ◌+◌, ◌≤◌, ◌<◌, ◌≡◌, refl, sym, ap, ◌∙◌, true, false, some, List, [], ◌∷◌, ◌++◌,
  length, length-append, take, ltb, nat_beq, All, arith,
}
use risq.Base.Int.{ℤ}
use risq.P2p.MessageStream.{
  Envelope, Reader, message_in_progress, between_messages, Codec, new_stream,
}
use risq.P2p.MessageStream.Reads.{bytes_of}
use risq.P2p.MessageStream.Output.{messages, sized, finish, output, remaining, output-append}
use risq.P2p.MessageStream.Polls.{output-full}
use risq.P2p.Connection.Writer.{Write, whole, broken, write_loop}

-- The bytes of a size: all but the last have the highest bit.
abbrev pub IsVarint : List ℕ → Type 0
IsVarint [] = ⊥
IsVarint (b ∷ []) = b < 128
IsVarint (b ∷ c ∷ bs) = (128 ≤ b) × IsVarint (c ∷ bs)

module _ {M : Type 0} (codec : Codec M) where
  -- The output from between messages, over the bytes of a size and what stands behind them.
  output-varint :
      (vs buf rest : List ℕ)
      → IsVarint vs
      → length buf + length vs ≤ 10
      → output codec (between_messages buf) (vs ++ rest)
        ≡ output codec (sized codec (codec.decode_varint (buf ++ vs))) rest
  unfolding output
  output-varint [] buf rest v h = absurd v
  output-varint (b ∷ []) buf rest v h =
      let last : ltb b 128 ≡ true = ground (arith, v) in rw last refl
  output-varint (b ∷ c ∷ bs) buf rest v h =
      let more : ltb b 128 ≡ false = ground (arith, v.0) in
      let part : nat_beq (length buf) 9 ≡ false = ground (arith, h) in
      rw (more, part)
        (output-varint (c ∷ bs) (buf ++ (b ∷ [])) rest v.1
            (omega (arith, length-append buf (b ∷ [])))
          ∙ ap (λ l. output codec (sized codec (codec.decode_varint l)) rest)
              (append_assoc buf (b ∷ []) (c ∷ bs)))

  -- The output over a whole message, and over a part of one.
  output-body :
      (body rest : List ℕ) (e : Envelope M)
      → codec.decode body ≡ some e
      → output codec (message_in_progress (length body) []) (body ++ rest)
        ≡ messages e ++ output codec (between_messages []) rest
  output-body body rest e decoded =
      sym (output-append codec (length body) [] body rest (omega arith))
      ∙ output-full codec (length body) body rest (omega arith)
      ∙ ap (λ d. (finish codec d).1 ++ output codec (finish codec d).0 rest) decoded

  output-part :
      (size : ℕ) (part : List ℕ)
      → length part < size
      → output codec (message_in_progress size []) part ≡ []
  unfolding output
  output-part size part h =
      let short : ltb (length part) size ≡ true = ground (arith, h) in
      ap (output codec (message_in_progress size [])) (sym (append-nil part))
      ∙ sym (output-append codec size [] part [] (omega (arith, h)))
      ∙ rw (short, output) refl

  -- What prost does for an envelope: the frame is the length of the body as a varint and the body,
  -- and both are read back.
  pub record IsCoded (frame : List ℕ) (e : Envelope M) : Type 0 where
    pub head : List ℕ
    pub body : List ℕ
    pub framed : frame ≡ head ++ body
    pub is_varint : IsVarint head
    pub short : length head ≤ 10
    pub sized_back : codec.decode_varint head ≡ some (length body)
    pub read_back : codec.decode body ≡ some e

  output-frame :
      (frame rest : List ℕ) (e : Envelope M)
      → IsCoded frame e
      → output codec (between_messages []) (frame ++ rest)
        ≡ messages e ++ output codec (between_messages []) rest
  output-frame frame rest e coded =
      ap (λ l. output codec (between_messages []) (l ++ rest)) coded.framed
      ∙ ap (output codec (between_messages [])) (append_assoc coded.head coded.body rest)
      ∙ output-varint coded.head [] (coded.body ++ rest) coded.is_varint
          (omega (arith, coded.short))
      ∙ ap (λ n. output codec (sized codec n) (coded.body ++ rest)) coded.sized_back
      ∙ output-body coded.body rest e coded.read_back

  take-length : (k : ℕ) (bs : List ℕ) → length (take k bs) ≤ k
  take-length zero bs = omega arith
  take-length (suc k) [] = omega arith
  take-length (suc k) (b ∷ bs) = omega (arith, take-length k bs)

  -- A part of the bytes of a size and a message has no message.
  output-cut :
      (k : ℕ) (vs buf body : List ℕ)
      → IsVarint vs
      → length buf + length vs ≤ 10
      → codec.decode_varint (buf ++ vs) ≡ some (length body)
      → k < length (vs ++ body)
      → output codec (between_messages buf) (take k (vs ++ body)) ≡ []
  unfolding output
  output-cut k [] buf body v h e short = absurd v
  output-cut zero (b ∷ vs) buf body v h e short = refl
  output-cut (suc k) (b ∷ []) buf body v h e short =
      let last : ltb b 128 ≡ true = ground (arith, v) in
      rw (last, e)
        (output-part (length body) (take k body) (omega (arith, take-length k body, short)))
  output-cut (suc k) (b ∷ c ∷ bs) buf body v h e short =
      let more : ltb b 128 ≡ false = ground (arith, v.0) in
      let part : nat_beq (length buf) 9 ≡ false = ground (arith, h) in
      rw (more, part)
        (output-cut k (c ∷ bs) (buf ++ (b ∷ [])) body v.1
          (omega (arith, length-append buf (b ∷ []), h))
          (ap codec.decode_varint (append_assoc buf (b ∷ []) (c ∷ bs)) ∙ e) (omega (arith, short)))

  -- The messages of the envelopes that are written as a whole, up to the first error.
  abbrev pub delivered : List (Envelope M × Write) → List M
  delivered [] = []
  delivered ((e, whole) ∷ rest) = messages e ++ delivered rest
  delivered ((e, broken k) ∷ rest) = []

  module _ (encode : ℤ → Envelope M → List ℕ) (version : ℤ) where
    abbrev pub IsWritten : Envelope M × Write → Type 0
    IsWritten (e, whole) = IsCoded (encode version e) e
    IsWritten (e, broken k) = IsCoded (encode version e) e × (k < length (encode version e))

    output-write_loop :
        (ws : List (Envelope M × Write))
        → All IsWritten ws
        → output codec (between_messages []) (write_loop encode version ws) ≡ delivered ws
    unfolding write_loop output
    output-write_loop [] h = refl
    output-write_loop ((e, whole) ∷ ws) h =
        output-frame (encode version e) (write_loop encode version ws) e h.0
        ∙ ap (λ l. messages e ++ l) (output-write_loop ws h.1)
    output-write_loop ((e, broken k) ∷ ws) h =
        let (coded, short) = h.0 in
        ap (λ l. output codec (between_messages []) (take k l)) coded.framed
        ∙ output-cut k coded.head [] coded.body coded.is_varint (omega (arith, coded.short))
            coded.sized_back (omega (arith, short, ap length coded.framed))

    -- Where prost reads back what it writes, and an error comes before the last byte of a frame:
    -- what a new stream gives, however the bytes of the writer arrive, are the messages of the
    -- envelopes that are written as a whole up to the first error, in their order, and no others.
    pub remaining-write_loop :
        (ws : List (Envelope M × Write)) (reader : Reader)
        → All IsWritten ws
        → bytes_of reader ≡ write_loop encode version ws
        → remaining codec (new_stream reader) ≡ delivered ws
    remaining-write_loop ws reader h arrives =
        ap (output codec (between_messages [])) arrives ∙ output-write_loop ws h
