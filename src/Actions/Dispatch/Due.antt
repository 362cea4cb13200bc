-- ===== src/Actions/Dispatch/Due.antt =====
-- Which execution a dispatched call of agent-rust/src/actions.rs may be attempted for.
use state_driven_agent.Common.{
  String, true, false, not, ◌&&◌, Option, none, some, ◌≡◌, refl, ok, str_eq,
}
use state_driven_agent.Common.Int.{ℤ, leb_ℤ}
use state_driven_agent.Json.{Value, index}
use state_driven_agent.Json.Host.{Host}
use state_driven_agent.Config.{Config}
use state_driven_agent.Session.{Session}
use state_driven_agent.Actions.{Env, text_is, lift, current}
use state_driven_agent.Actions.Gives.{
  Gives, Gives-lift, Gives-then, Gives-bind, Gives-if, Gives-return,
}
use state_driven_agent.Actions.Dispatch.{
  target_of, fixture, mode_of, Call, namespace_of, command_of, new_execution, intend, intend_or,
  found_execution, check_payload, is_terminal, Recovery, settled, unsettled, recovered, unknown,
  verified, verify, reconcile, recover, may_repeat, max_attempts, attempts_of,
}

module _ (host : Host) (env : Env) (config : Config) (call : Call) where
  -- The execution of the call: the one that the session has, or, where it has none, one that is
  -- made for the call, with some identity, the key of this identity and the digest of the payload.
  pub data IsExecution (s : Session) (e : Value) : Type 0 where
    found : found_execution host env config call s ≡ some e → IsExecution s e
    intended :
        (id key digest : String)
        → found_execution host env config call s ≡ none
        → env.action_key (namespace_of (command_of s)) s.id id ≡ ok key
        → env.payload_digest call.tool (target_of call.tool) call.args ≡ ok digest
        → e ≡ new_execution host env config call s (namespace_of (command_of s)) id key digest
        → IsExecution s e

  -- It is to be attempted: it has no outcome, its payload is the one of the call, it may be
  -- repeated, and it has attempts left.
  pub record IsDue (s : Session) (e : Value) : Type 0 where
    pub execution : IsExecution s e
    pub same_payload : check_payload host env config call e ≡ ok tt
    pub unfinished : is_terminal host env config call e ≡ false
    pub repeatable : may_repeat host env config call e ≡ true
    pub attempts_left :
        leb_ℤ (max_attempts host env config call e) (attempts_of host env config call e) ≡ false

  intend-Gives :
      (s : Session)
      → found_execution host env config call s ≡ none
      → Gives (IsExecution s) (intend host env config call (namespace_of (command_of s)) s)
  unfolding intend
  intend-Gives s h = Gives-bind (IsExecution s) _ _ λ id.
      Gives-then (λ key. env.action_key (namespace_of (command_of s)) s.id id ≡ ok key)
        (IsExecution s) _ _ (Gives-lift _ _ λ key e. e)
        λ key keyed.
          Gives-then
            (λ digest. env.payload_digest call.tool (target_of call.tool) call.args ≡ ok digest)
            (IsExecution s) _ _ (Gives-lift _ _ λ digest e. e)
            λ digest digested. Gives-bind (IsExecution s) _ _ λ _.
              Gives-return (IsExecution s)
                (new_execution host env config call s (namespace_of (command_of s)) id key digest)
                (intended id key digest h keyed digested refl)

  pub intend_or-Gives :
      (s : Session)
      → Gives (IsExecution s) (
          intend_or host env config call
            (namespace_of (command_of s))
            s
            (found_execution host env config call s))
  intend_or-Gives s = go (found_execution host env config call s) refl
    where
      go :
          (o : Option Value)
          → found_execution host env config call s ≡ o
          → Gives (IsExecution s) (intend_or host env config call (namespace_of (command_of s)) s o)
      go (some e) h = Gives-return (IsExecution s) e (found h)
      go none h = intend-Gives s h

  -- What recovery leaves unsettled is the execution that it started with.
  abbrev pub IsSame : Value → Recovery → Type 0
  IsSame e (settled result) = Unit {0}
  IsSame e (unsettled e' n) = e' ≡ e

  unknown-Gives : (e v : Value) (n : ℤ) → Gives (IsSame e) (unknown host env config call e v n)
  unfolding unknown
  unknown-Gives e v n = Gives-bind (IsSame e) _ _ λ _. Gives-return (IsSame e) (unsettled e n) refl

  recovered-Gives :
      (e v : Value) (r : String) → Gives (IsSame e) (recovered host env config call e v r)
  unfolding recovered
  recovered-Gives e v r = Gives-bind (IsSame e) _ _ λ _. Gives-return (IsSame e) (settled r) tt

  verified-Gives :
      (e v : Value) (n : ℤ) (row : Option (String × Value))
      → Gives (IsSame e) (verified host env config call e v n row)
  unfolding verified
  verified-Gives e v n none = unknown-Gives e v n
  verified-Gives e v n (some (fingerprint, result)) =
      Gives-if (IsSame e) (text_is (index "payload_sha256" e) fingerprint) _ _
        (Gives-bind (IsSame e) (lift (env.canonical result)) _ λ r. recovered-Gives e v r)
        (unknown-Gives e v n)

  reconcile-Gives :
      (namespace : String) (e : Value) (n : ℤ)
      → Gives (IsSame e) (reconcile host env config call namespace e n)
  unfolding reconcile verify
  reconcile-Gives namespace e n =
      Gives-if (IsSame e)
        (not (text_is (index "status" e) "pending")
          && str_eq (mode_of host env config call e) "reconcile"
          && str_eq call.tool fixture)
        _ _
        (Gives-bind (IsSame e) current _ λ s. Gives-bind (IsSame e) _ _ λ id.
          Gives-bind (IsSame e) _ _ λ started.
            Gives-bind (IsSame e) _ _
              λ row. Gives-bind (IsSame e) _ _ λ now. verified-Gives e _ _ row)
        (Gives-return (IsSame e) (unsettled e n) refl)

  pub recover-Gives :
      (namespace : String) (e : Value) → Gives (IsSame e) (recover host env config call namespace e)
  unfolding recover
  recover-Gives namespace e = Gives-bind (IsSame e) _ _ λ _. reconcile-Gives namespace e _
