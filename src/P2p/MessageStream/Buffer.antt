-- ===== src/P2p/MessageStream/Buffer.antt =====
-- The buffer of envelopes in src/p2p/connection/message_stream.rs.
use mathlib.Core.List.{append_assoc}
use risq.Base.{
  subst, ℕ, zero, suc, ◌+◌, ◌≡◌, ◌≤◌, refl, sym, ap, ◌∙◌, Option, none, some, List, [], ◌∷◌, ◌++◌,
  arith,
}
use risq.P2p.MessageStream.{
  Envelope, without_message, single, bundle_of_envelopes, Envelopes, no_envelopes, more_envelopes,
  push_front, size_envelopes, size_buffer, next_from_buffer,
}
use risq.P2p.MessageStream.Output.{messages, messages_of, buffered}

module _ {M : Type 0} where
  buffered-push_front :
      (es : Envelopes M) (buffer : List (Envelope M))
      → buffered (push_front es buffer) ≡ messages_of es ++ buffered buffer
  buffered-push_front no_envelopes buffer = refl
  buffered-push_front (more_envelopes e es) buffer =
      ap (λ r. messages e ++ r) (buffered-push_front es buffer)
      ∙ sym (append_assoc (messages e) (messages_of es) (buffered buffer))

  size-push_front :
      (es : Envelopes M) (buffer : List (Envelope M))
      → size_buffer (push_front es buffer) ≡ size_envelopes es + size_buffer buffer
  size-push_front no_envelopes buffer = omega arith
  size-push_front (more_envelopes e es) buffer = omega (arith, size-push_front es buffer)

  -- What is taken from the buffer, and what is left.
  abbrev pub IsNext : List M → Option M × List (Envelope M) → Type 0
  IsNext all (none, buffer) = (all ≡ []) × (buffer ≡ [])
  IsNext all (some msg, buffer) = all ≡ msg ∷ buffered buffer

  -- `next_from_buffer` takes the first message of the buffer, in the order of envelopes and
  -- bundles, and leaves the others.
  pub next_from_buffer-IsNext :
      (fuel : ℕ) (buffer : List (Envelope M))
      → size_buffer buffer ≤ fuel
      → IsNext (buffered buffer) (next_from_buffer fuel buffer)
  unfolding next_from_buffer
  next_from_buffer-IsNext zero [] h = (refl, refl)
  next_from_buffer-IsNext zero (without_message ∷ buffer) h = absurd (omega (arith, h))
  next_from_buffer-IsNext zero (single msg ∷ buffer) h = absurd (omega (arith, h))
  next_from_buffer-IsNext zero (bundle_of_envelopes es ∷ buffer) h = absurd (omega (arith, h))
  next_from_buffer-IsNext (suc fuel) [] h = (refl, refl)
  next_from_buffer-IsNext (suc fuel) (without_message ∷ buffer) h =
      next_from_buffer-IsNext fuel buffer (omega (arith, h))
  next_from_buffer-IsNext (suc fuel) (single msg ∷ buffer) h = refl
  next_from_buffer-IsNext (suc fuel) (bundle_of_envelopes es ∷ buffer) h =
      subst (λ all. IsNext all (next_from_buffer fuel (push_front es buffer)))
        (buffered-push_front es buffer)
        (next_from_buffer-IsNext fuel (push_front es buffer)
          (omega (arith, h, size-push_front es buffer)))
