-- ===== src/P2p/Tor/Sends.antt =====
-- What the commands of src/p2p/tor.rs write, one after the other.
use Prim.Native.String.{◌++◌}
use risq.Base.{
  ℕ, String, ◌≡◌, ◌≢◌, ◌∙◌, ap, sym, subst, refl, ◌⊎◌, inl, inr, Bool, true, false, Bool-cases,
  Option, none, some, List, [], ◌∷◌, length, ◌==◌, nat_eq, beq→eq, list_beq, list_beq_iff, arith,
}
use risq.Base as Base
use risq.P2p.Tor.Line.{Outcome, done, failed, panicked}
use risq.P2p.Tor.{TorControl, Run, follow, sending, send_command, read_lines, lines_from}
use risq.P2p.Tor.Auth.{protocol_info}

abbrev pub IsFailure : {A : Type 0} → Outcome A → Type 0
IsFailure (done a) = ⊥
IsFailure (failed e) = Unit
IsFailure panicked = Unit

-- A chain that fails stops in the state of its first part; else it goes on.
pub follow-elim :
    {A B : Type 0} (k : A → Run B) (r : Outcome A × TorControl)
    (Q : Outcome B × TorControl → Type 0)
    → ((a : A) → r.0 ≡ done a → Q (k a r.1))
    → (IsFailure r.0 → (o : Outcome B) → IsFailure o → Q (o, r.1))
    → Q (follow k r)
follow-elim k (done a, tc) Q go stop = go a refl
follow-elim k (failed e, tc) Q go stop = stop tt (failed e) tt
follow-elim k (panicked, tc) Q go stop = stop tt panicked tt

-- Nothing else is written, and the reading stands where it stood.
abbrev pub IsSent : String → TorControl → Outcome (Unit {0}) × TorControl → Type 0
IsSent text tc (o, tc') =
    (tc'.received ≡ tc.received)
    × ((IsFailure o × (tc'.sent ≡ tc.sent)) ⊎ (tc'.sent ≡ Base.◌++◌ tc.sent (text ∷ [])))

sending-IsSent :
    (writes : List Bool) (text : String) (tc : TorControl) → IsSent text tc (sending writes text tc)
sending-IsSent [] text tc = (refl, inl (tt, refl))
sending-IsSent (true ∷ ws) text tc = (refl, inr refl)
sending-IsSent (false ∷ ws) text tc = (refl, inl (tt, refl))

pub send_command-IsSent :
    (command : String) (tc : TorControl) → IsSent (command ++ "\r\n") tc (send_command command tc)
unfolding send_command
send_command-IsSent command tc = sending-IsSent tc.writes (command ++ "\r\n") tc

pub read_lines-sent : (tc : TorControl) → (read_lines tc).1.sent ≡ tc.sent
unfolding read_lines
read_lines-sent tc = refl

pub reading :
    (tc tc' : TorControl) {o : Outcome (List String)}
    → tc'.received ≡ tc.received
    → (read_lines tc').0 ≡ o
    → (lines_from tc.received).0 ≡ o
unfolding read_lines
reading tc tc' same e = ap (λ received. (lines_from received).0) (sym same) ∙ e

abbrev pub protocol_line : String
protocol_line = "PROTOCOLINFO 1" ++ "\r\n"

abbrev pub IsAsked : {A : Type 0} → TorControl → Outcome A × TorControl → Type 0
IsAsked tc (o, tc') =
    (IsFailure o × (tc'.sent ≡ tc.sent)) ⊎ (tc'.sent ≡ Base.◌++◌ tc.sent (protocol_line ∷ []))

pub went : {A X Y : Type 0} {o : Outcome A} {a : A} → o ≡ done a → (IsFailure o × X) ⊎ Y → Y
went {o} e (inl (bad, x)) = absurd (subst IsFailure e bad)
went e (inr y) = y

pub protocol_info-IsAsked : (tc : TorControl) → IsAsked tc (protocol_info tc)
unfolding protocol_info
protocol_info-IsAsked tc =
    let r = send_command "PROTOCOLINFO 1" tc in
    let (_, asked) = send_command-IsSent "PROTOCOLINFO 1" tc in
    follow-elim _ r (IsAsked tc)
      (λ _ e.
        follow-elim _ (read_lines r.1) (IsAsked tc)
          (λ response _. inr (read_lines-sent r.1 ∙ went e asked))
          (λ _ o bad. inr (read_lines-sent r.1 ∙ went e asked)))
      (λ bad o failure. elim asked [ inl (_, same) ↦ inl (failure, same) | inr more ↦ inr more ])
