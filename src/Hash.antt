-- ===== src/Hash.antt =====
-- src/bisq/hash.rs: the keys of messages. A digest is a list of bytes.
use risq.Base.{ℕ, ◌≡◌, ◌↔◌, Bool, true, List, Eq, nat_eq, list_beq, list_beq_iff, arith}

pub record SequencedMessageHash : Type 0 where
  pub inner : List ℕ

pub record PersistentMessageHash : Type 0 where
  pub inner : List ℕ

abbrev pub sequenced_beq : SequencedMessageHash → SequencedMessageHash → Bool
sequenced_beq a b = list_beq a.inner b.inner

pub sequenced_beq_iff : (a b : SequencedMessageHash) → (sequenced_beq a b ≡ true) ↔ (a ≡ b)
sequenced_beq_iff a b = ground (arith, list_beq_iff a.inner b.inner)

instance abbrev pub sequenced_eq : Eq SequencedMessageHash
sequenced_eq = record { beq = sequenced_beq; beq_iff = sequenced_beq_iff }

abbrev pub persistent_beq : PersistentMessageHash → PersistentMessageHash → Bool
persistent_beq a b = list_beq a.inner b.inner

pub persistent_beq_iff : (a b : PersistentMessageHash) → (persistent_beq a b ≡ true) ↔ (a ≡ b)
persistent_beq_iff a b = ground (arith, list_beq_iff a.inner b.inner)

instance abbrev pub persistent_eq : Eq PersistentMessageHash
persistent_eq = record { beq = persistent_beq; beq_iff = persistent_beq_iff }
