-- ===== src/P2p/Server/Start.antt =====
-- What the start of src/p2p/server.rs tells, and whom it trusts.
use risq.Base.{ℕ, ◌≡◌, sym, ap, ◌∙◌, inl, inr, true, some, List, >>=-eq-some, some-injective}
use risq.P2p.Status.{NodeAddress}
use risq.P2p.Tor.Line.{Outcome, done, failed, panicked}
use risq.P2p.Tor.{TorControl}
use risq.P2p.Tor.Auth.{TorCrypto, authenticate}
use risq.P2p.Tor.Sends.{IsFailure}
use risq.P2p.Tor.Proof.{IsGuarded, IsProven, authenticate-IsGuarded}
use risq.P2p.Server.{
  TorConfig, Server, Sent, expect, hidden_service, own_address, announce, started,
}

not_expected : {A : Type 0} (o : Outcome A) {a : A} → IsFailure o → expect o ≡ some a → ⊥
not_expected (done a) h e = h
not_expected (failed error) h e = cc
not_expected panicked h e = cc

module _ (c : TorCrypto) (client_nonce : List ℕ) where
  guarded :
      (tc : TorControl) (r : Outcome (Unit {0}) × TorControl) {u : Unit {0}}
      → IsGuarded c client_nonce tc r
      → expect r.0 ≡ some u
      → IsProven c client_nonce tc r
  guarded tc r (inl (bad, _)) e = absurd (not_expected r.0 bad e)
  guarded tc r (inr proven) e = proven

  hidden_service-IsProven :
      (server : Server) (conf : TorConfig) (tc : TorControl) {addr : NodeAddress}
      → hidden_service c client_nonce server conf (some tc) ≡ some addr
      → IsProven c client_nonce tc (authenticate c client_nonce tc)
  unfolding hidden_service
  hidden_service-IsProven server conf tc e =
      let (_, expected, _) = >>=-eq-some (expect (authenticate c client_nonce tc).0) _ e in
      guarded tc (authenticate c client_nonce tc) (authenticate-IsGuarded c client_nonce tc)
        expected

  -- A start with Tor that does not panic tells one address to all, and in its authentication the
  -- control port has proven that it knows the cookie.
  pub started-IsProven :
      {C : Type 0} (server : Server) (conf : TorConfig) (tc : TorControl) {out : List (Sent C)}
      → server.tor_conf ≡ some conf
      → started c client_nonce true server (some tc) ≡ some out
      → (addr : NodeAddress) × (out ≡ announce server.bootstrap addr)
        × IsProven c client_nonce tc (authenticate c client_nonce tc)
  unfolding started
  started-IsProven server conf tc h e =
      let (addr, own, made) =
        >>=-eq-some (own_address c client_nonce server server.tor_conf (some tc)) _ e in
      let with_tor = ap (λ t. own_address c client_nonce server t (some tc)) (sym h) ∙ own in
      (addr, sym (some-injective made), hidden_service-IsProven server conf tc with_tor)
