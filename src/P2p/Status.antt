-- ===== src/P2p/Status.antt =====
-- src/p2p/status.rs: what the API may ask about the connections. A connection's id is a number in
-- place of a `Uuid`. The write lock makes each operation one step; `none` is the panic of `expect`.
use risq.Base.{
  ℕ, String, Bool, true, ◌≡◌, ◌↔◌, ◌&&◌, Option, none, some, Eq, nat_eq, ◌==◌, string_eq, arith,
  false, nat_beq, nat_beq_iff,
}
use risq.Base.Int.{ℤ, pos, negsuc}
use risq.Base.HashMap.{HashMap, get, insert, remove}

abbrev pub ConnectionId : Type 0
ConnectionId = ℕ

-- Of src/generated/io.bisq.protobuffer.rs.
pub record NodeAddress : Type 0 where
  pub host_name : String
  pub port : ℤ

abbrev int_beq : ℤ → ℤ → Bool
int_beq (pos n) (pos m) = nat_beq n m
int_beq (negsuc n) (negsuc m) = nat_beq n m
int_beq _ _ = false

pub int_beq_iff : (n m : ℤ) → (int_beq n m ≡ true) ↔ (n ≡ m)
int_beq_iff (pos n) (pos m) = ground (arith, nat_beq_iff n m)
int_beq_iff (negsuc n) (negsuc m) = ground (arith, nat_beq_iff n m)
int_beq_iff (pos n) (negsuc m) = ground arith
int_beq_iff (negsuc n) (pos m) = ground arith

abbrev address_beq : NodeAddress → NodeAddress → Bool
address_beq a b = a.host_name == b.host_name && int_beq a.port b.port

pub address_beq_iff : (a b : NodeAddress) → (address_beq a b ≡ true) ↔ (a ≡ b)
address_beq_iff a b =
    ground (arith, string_eq.beq_iff a.host_name b.host_name, int_beq_iff a.port b.port)

instance abbrev pub address_eq : Eq NodeAddress
address_eq = record { beq = address_beq; beq_iff = address_beq_iff }

pub record ConnectionStatus : Type 0 where
  pub addr : Option NodeAddress
  pub alive_at : ℕ

-- The `connections` of `Status`.
abbrev pub Status : Type 0
Status = HashMap ConnectionId ConnectionStatus

unfoldable pub connection_added : ℕ → ConnectionId → Option NodeAddress → Status → Status
connection_added now id addr status = insert id (record { addr = addr; alive_at = now }) status

unfoldable pub connection_removed : ConnectionId → Status → Status
connection_removed id status = remove id status

abbrev pub or_else {ℓ} : {A : Type ℓ} → Option A → Option A → Option A
or_else none b = b
or_else (some a) b = some a

unfoldable pub connection_identified : ℕ → ConnectionId → NodeAddress → Status → Option Status
connection_identified now id addr status = elim (get id status) [
  | none ↦ none
  | some s ↦ some (insert id (record { addr = or_else s.addr (some addr); alive_at = now }) status)
]

unfoldable pub connection_alive : ConnectionId → ℕ → Status → Option Status
connection_alive id at status = elim (get id status) [
  | none ↦ none
  | some s ↦ some (insert id (record s { alive_at = at }) status)
]
