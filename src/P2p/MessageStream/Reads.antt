-- ===== src/P2p/MessageStream/Reads.antt =====
-- The reads of src/p2p/connection/message_stream.rs, and the bytes that are left behind them.
use mathlib.Core.List.{append_assoc}
use risq.Base.{
  ℕ, zero, suc, ◌≡◌, ◌≤◌, ◌<◌, refl, sym, ap, ◌∙◌, Option, none, some, List, [], ◌∷◌, ◌++◌, length,
  arith,
}
use risq.P2p.MessageStream.{not_ready, arrived, Reader, rest_of, split_at, poll_read}

-- The bytes that the socket will give, whenever they arrive.
abbrev pub bytes_of : Reader → List ℕ
bytes_of [] = []
bytes_of (not_ready ∷ reader) = bytes_of reader
bytes_of (arrived b bs ∷ reader) = b ∷ (bs ++ bytes_of reader)

-- What a read takes stands before what it leaves.
split_at-append : (k : ℕ) (bs : List ℕ) → (split_at k bs).0 ++ (split_at k bs).1 ≡ bs
split_at-append zero bs = refl
split_at-append (suc k) [] = refl
split_at-append (suc k) (b ∷ bs) = ap (λ r. b ∷ r) (split_at-append k bs)

split_at-length : (k : ℕ) (bs : List ℕ) → length (split_at k bs).0 ≤ k
split_at-length zero bs = omega arith
split_at-length (suc k) [] = omega arith
split_at-length (suc k) (b ∷ bs) = omega (arith, split_at-length k bs)

rest_of-bytes :
    (bs : List ℕ) (reader : Reader) → bytes_of (rest_of bs reader) ≡ bs ++ bytes_of reader
rest_of-bytes [] reader = refl
rest_of-bytes (b ∷ bs) reader = refl

-- What a read of at least one byte tells of the bytes to come.
abbrev pub IsRead : ℕ → List ℕ → Option (List ℕ) × Reader → Type 0
IsRead k bytes (none, reader) = bytes_of reader ≡ bytes
IsRead k bytes (some [], reader) = bytes ≡ []
IsRead k bytes (some (b ∷ bs), reader) = ((b ∷ bs) ++ bytes_of reader ≡ bytes) × (length bs < k)

pub poll_read-IsRead :
    (k : ℕ) (reader : Reader) → IsRead (suc k) (bytes_of reader) (poll_read (suc k) reader)
unfolding poll_read
poll_read-IsRead k [] = refl
poll_read-IsRead k (not_ready ∷ reader) = refl
poll_read-IsRead k (arrived b bs ∷ reader) =
    let (front, back) = split_at k bs in
    (
      ap (λ r. b ∷ (front ++ r)) (rest_of-bytes back reader)
          ∙ ap (λ r. b ∷ r)
              (sym (append_assoc front back (bytes_of reader))
                ∙ ap (λ r. r ++ bytes_of reader) (split_at-append k bs)),
      omega (arith, split_at-length k bs),
    )

pub poll_some : (k : ℕ) (reader : Reader) → 1 ≤ k → IsRead k (bytes_of reader) (poll_read k reader)
poll_some zero reader h = absurd (omega (arith, h))
poll_some (suc k) reader h = poll_read-IsRead k reader
