-- ===== src/Actions.antt =====
-- agent-rust/src/actions.rs: a tool call as a durable action, with its intent, its attempts and the
-- checkpoints that commit them.
-- An action is a function from a world, the session and the effects so far, to a result and a world.
-- What answers an effect is a function of the effects before it: fresh identities, the clock, the
-- commit of a checkpoint, the recipient's receipts, the tools, and the identities of
-- agent-rust/src/identity.rs. `dispatch` is in Actions/Dispatch.
pub mod Dispatch
pub mod Sample
pub mod Chain
pub mod Frame
pub mod Gives
pub mod Ensures
use state_driven_agent.Common.{
  ℕ, String, Bool, true, false, not, ◌&&◌, ◌||◌, Option, none, some, List, [], ◌∷◌, ◌++◌,
  if◌then◌else◌, str_eq, is_some_and, is_none, or_else, any, find, ◌+++◌, Result, ok, err,
}
use state_driven_agent.Common.Int.{ℤ, pos, negsuc, add64}
use state_driven_agent.Json.{
  Value, null, str, obj, num, pos_int, neg_int, Fields, text, nat, object, insert, index, as_str,
  as_array, as_object, as_i64,
}
use state_driven_agent.Json.Host.{Host}
use state_driven_agent.Json.Equal.{value_eq}
use state_driven_agent.Session.{
  Session, Receipt, archive_record, acknowledge_checkpoint, clear_outboxes,
}

pub data Effect : Type 0 where
  drew_id drew_time : Effect
  emitted : Value → Session → Effect
  queried : String → Value → Effect
  invoked : String → Value → Effect
  requested : String → Value → Effect

-- The effects are listed from the latest back.
pub record World : Type 0 where
  pub session : Session
  pub log : List Effect

pub record Env : Type 0 where
  pub fresh_id : List Effect → String
  pub timestamp : List Effect → String
  -- `emit`, with the receipt that it leaves for the session
  pub emit : List Effect → Value → Session → Result String (Option Receipt)
  -- the recipient's row for a key: its fingerprint and result
  pub receipt : List Effect → String → Value → Option (String × Value)
  -- `recipient` and `tools::execute`
  pub recipient : List Effect → String → Value → Value → Result String String
  pub execute : List Effect → String → Fields → String
  -- `identity::action`, `identity::payload` and `identity::canonical`
  pub action_key : String → String → String → Result String String
  pub payload_digest : String → String → Value → Result String String
  pub canonical : Value → Result String String

abbrev pub Action : Type 0 → Type 0
Action A = World → Result String A × World

abbrev pub return : {A : Type 0} → A → Action A
return a w = (ok a, w)

abbrev pub fail : {A : Type 0} → String → Action A
fail e w = (err e, w)

abbrev pub lift : {A : Type 0} → Result String A → Action A
lift r w = (r, w)

abbrev pub proceed :
    {A B : Type 0} → (A → Action B) → Result String A × World → Result String B × World
proceed f (ok a, w) = f a w
proceed f (err e, w) = (err e, w)

infixl 5 ◌>>=◌ ◌>>◌
unfoldable pub ◌>>=◌ : {A B : Type 0} → Action A → (A → Action B) → Action B
(m >>= f) w = proceed f (m w)

abbrev pub ◌>>◌ : {B : Type 0} → Action (Unit {0}) → Action B → Action B
m >> k = m >>= λ _. k

abbrev pub current : Action Session
current w = (ok w.session, w)

abbrev pub modify : (Session → Session) → Action (Unit {0})
modify f w = (ok tt, record w { session = f w.session })

abbrev pub committed :
    Value → World → Result String (Option Receipt) → Result String (Option Receipt) × World
committed event w r = (r, record w { log = emitted event w.session ∷ w.log })

module _ (env : Env) where
  abbrev pub draw_id : Action String
  draw_id w = (ok (env.fresh_id w.log), record w { log = drew_id ∷ w.log })

  abbrev pub draw_time : Action String
  draw_time w = (ok (env.timestamp w.log), record w { log = drew_time ∷ w.log })

  abbrev pub commit : Value → Action (Option Receipt)
  commit event w = committed event w (env.emit w.log event w.session)

  abbrev pub query : String → Value → Action (Option (String × Value))
  query namespace key w =
      (ok (env.receipt w.log namespace key), record w { log = queried namespace key ∷ w.log })

  -- The recipient of idempotent writes, or a tool.
  abbrev pub invoke : String → String → Value → Value → Action (Result String String)
  invoke tool namespace key args w = (
    ok (
        if str_eq tool "fixture_idempotent_write"
        then env.recipient w.log namespace key args
        else ok (env.execute w.log tool (or_else (as_object args) Fields.end))),
    record w { log = invoked tool args ∷ w.log },
  )

  -- `audit`
  abbrev pub audit : String → Value → Action (Unit {0})
  audit kind payload =
      draw_id >>= λ id. draw_time >>= λ now. modify (λ s. archive_record s id now kind payload)

  abbrev pub ended : String → Session → Session
  ended now s = record s {
    run_ended_at = some now;
    run_termination_reason = some "recovery_required";
  }

  -- A run that blocks ends.
  abbrev pub close_blocked : Session → Action (Unit {0})
  close_blocked s =
      if str_eq s.run_status "blocked" && is_none s.run_ended_at
      then (draw_time >>= λ now. modify (ended now))
      else return tt

  -- Behind the commit: the receipt is taken over, and the outboxes are emptied.
  abbrev pub acknowledge : Option Receipt → Action (Unit {0})
  acknowledge receipt =
      modify (acknowledge_checkpoint receipt)
      >> (current >>= λ s.
          if s.needs_reload
          then fail "historical commit receipt requires reload"
          else modify clear_outboxes)

  -- `checkpoint`
  abbrev pub checkpoint : Value → Action (Unit {0})
  checkpoint event = current >>= close_blocked >> commit event >>= acknowledge

-- `v == "…"` on a value
abbrev pub text_is : Value → String → Bool
text_is v s = is_some_and (as_str v) λ t. str_eq t s

-- `v[k] = x`: a null becomes an object. What is indexed so is an object or a null.
unfoldable pub set : String → Value → Value → Value
set k x (obj m) = obj (insert k x m)
set k x null = object ((k, x) ∷ [])
set k x v = v

abbrev pub int : ℤ → Value
int (pos n) = num (pos_int n)
int (negsuc n) = num (neg_int n)

module _ (host : Host) where
  abbrev pub same_execution : Value → Value → Bool
  same_execution e v = value_eq host (index "execution_id" v) (index "execution_id" e)

  abbrev pub replace : Value → List Value → List Value
  replace e [] = e ∷ []
  replace e (v ∷ vs) = let rest = replace e vs in if same_execution e v then e ∷ vs else v ∷ rest

  -- `retain`
  abbrev pub others : Value → List Value → List Value
  others e [] = []
  others e (v ∷ vs) = let rest = others e vs in if same_execution e v then rest else v ∷ rest

  -- `stage`
  abbrev pub stage_execution : Value → Session → Session
  stage_execution e s = record s {
    executions = replace e s.executions;
    pending_execution_outbox = others e s.pending_execution_outbox ++ e ∷ [];
  }
