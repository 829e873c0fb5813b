-- ===== src/P2p/Dispatch.antt =====
-- src/p2p/dispatch.rs: the chain of dispatchers, each of which hands to an actor the messages that
-- it extracts.
use risq.Base.{◌≡◌, refl, ◌∙◌, ap, Option, none, some, List, [], ◌∷◌, ◌++◌, map}
use risq.P2p.Status.{ConnectionId}

pub data Dispatch (M : Type 0) : Type 0 where
  consumed : Dispatch M
  retained : M → Dispatch M

-- A dispatcher of messages `M`, with what it sends to actors.
abbrev pub Dispatcher : Type 0 → Type 0 → Type 0
Dispatcher M O = ConnectionId → M → List O × Dispatch M

-- `ActorDispatcher::dispatch`, of an extractor (`none` gives the message back) and of the actor's
-- mailbox.
abbrev pub handed :
    {M O E : Type 0} → (ConnectionId → E → O) → ConnectionId → M → Option E → List O × Dispatch M
handed receive conn msg none = ([], retained msg)
handed receive conn msg (some extraction) = (receive conn extraction ∷ [], consumed)

abbrev pub actor_dispatcher :
    {M O E : Type 0} → (M → Option E) → (ConnectionId → E → O) → Dispatcher M O
actor_dispatcher extract receive conn msg = handed receive conn msg (extract msg)

module _ {M O : Type 0} where
  abbrev pub or_next : Dispatcher M O → ConnectionId → List O × Dispatch M → List O × Dispatch M
  or_next next conn (out, consumed) = (out, consumed)
  or_next next conn (out, retained msg) = let (more, end) = next conn msg in (out ++ more, end)

  -- `ForwardTo::dispatch`
  unfoldable pub forward_to : Dispatcher M O → Dispatcher M O → Dispatcher M O
  forward_to first next conn msg = or_next next conn (first conn msg)

  -- A chain, as `chain(first).forward_to(…)` builds it from the left.
  unfoldable pub chain : Dispatcher M O → List (Dispatcher M O) → Dispatcher M O
  chain first [] = first
  chain first (next ∷ rest) = chain (forward_to first next) rest

-- An actor: its extractor, and its mailbox.
pub record Target (M O : Type 0) : Type 1 where
  pub Extraction : Type 0
  pub extract : M → Option Extraction
  pub receive : ConnectionId → Extraction → O

abbrev pub dispatcher_of : {M O : Type 0} → Target M O → Dispatcher M O
dispatcher_of target = actor_dispatcher target.extract target.receive

module _ {M O : Type 0} (conn : ConnectionId) (msg : M) where
  -- What the target is sent: nothing where it does not extract the message.
  abbrev pub taken : (target : Target M O) → Option target.Extraction → Option O
  taken target none = none
  taken target (some extraction) = some (target.receive conn extraction)

  -- What the first target is sent that extracts the message.
  unfoldable pub first_taken : List (Target M O) → Option O
  first_taken [] = none
  first_taken (target ∷ rest) = elim (taken target (target.extract msg)) [
    | none ↦ first_taken rest
    | some o ↦ some o
  ]

  abbrev pub outcome : Option O → List O × Dispatch M
  outcome none = ([], retained msg)
  outcome (some o) = (o ∷ [], consumed)

  dispatcher_of-outcome :
      (target : Target M O)
      → dispatcher_of target conn msg ≡ outcome (taken target (target.extract msg))
  dispatcher_of-outcome target = go (target.extract msg)
    where
      go :
          (extracted : Option target.Extraction)
          → handed target.receive conn msg extracted ≡ outcome (taken target extracted)
      go none = refl
      go (some extraction) = refl

  chain-outcome :
      (first : Dispatcher M O) (o : Option O) (targets : List (Target M O))
      → first conn msg ≡ outcome o
      → chain first (map dispatcher_of targets) conn msg
        ≡ outcome (elim o [ none ↦ first_taken targets | some p ↦ some p ])
  unfolding chain forward_to first_taken
  chain-outcome first none [] e = e
  chain-outcome first (some o) [] e = e
  chain-outcome first (some o) (target ∷ rest) e =
      chain-outcome (forward_to first (dispatcher_of target)) (some o) rest
        (ap (or_next (dispatcher_of target) conn) e)
  chain-outcome first none (target ∷ rest) e =
      chain-outcome (forward_to first (dispatcher_of target)) (taken target (target.extract msg))
        rest (ap (or_next (dispatcher_of target) conn) e ∙ dispatcher_of-outcome target)

  -- A chain of actors' dispatchers hands a message to just the first actor that extracts it, and
  -- gives it back where none does.
  pub chain_first :
      (target : Target M O) (targets : List (Target M O))
      → chain (dispatcher_of target) (map dispatcher_of targets) conn msg
        ≡ outcome (first_taken (target ∷ targets))
  unfolding first_taken
  chain_first target targets =
      chain-outcome (dispatcher_of target) (taken target (target.extract msg)) targets
        (dispatcher_of-outcome target)
