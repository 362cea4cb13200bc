-- ===== src/Actions/Dispatch.antt =====
-- `dispatch` of agent-rust/src/actions.rs, one action for each of its parts.
pub mod Quiet
pub mod Committed
pub mod Once
pub mod Keeps
pub mod Due
mod Tests
use state_driven_agent.Common.{
  ℕ, String, Bool, true, false, not, ◌&&◌, ◌||◌, Option, none, some, List, [], ◌∷◌, ◌++◌,
  if◌then◌else◌, str_eq, is_some_and, is_none, is_empty, or_else, find, ◌+++◌, Result, ok, err,
  ok_or,
}
use state_driven_agent.Common.Int.{ℤ, pos, add64, leb_ℤ, ltb_ℤ}
use state_driven_agent.Json.{
  Value, null, bool, str, text, nat, object, get, index, as_str, as_array, as_i64, ◌and_then◌,
}
use state_driven_agent.Json.Host.{Host}
use state_driven_agent.Json.Equal.{value_eq}
use state_driven_agent.Config.{Tool, Config}
use state_driven_agent.Session.{Session}
use state_driven_agent.Workflow.{is_failure}
use state_driven_agent.Actions.{
  Env, Action, return, fail, lift, ◌>>=◌, ◌>>◌, current, modify, draw_id, draw_time, query, invoke,
  audit, checkpoint, text_is, set, int, stage_execution,
}

abbrev pub fixture : String
fixture = "fixture_idempotent_write"

abbrev pub command_of : Session → Value
command_of s =
    or_else s.command
      (object (("id", text s.run_command_id) ∷ ("namespace", str "regression") ∷ []))

abbrev pub namespace_of : Value → String
namespace_of command = or_else (as_str (index "namespace" command)) "regression"

abbrev pub target_of : String → String
target_of tool = if str_eq tool fixture then "fixture://action-receipts" else "tool://" +++ tool

abbrev pub policy_of : Config → String → Value
policy_of config tool =
    or_else (find (λ t. str_eq t.name tool) config.tools and_then λ t. t.recovery) (
      object (
        ("mode", str (if str_eq tool fixture then "idempotent" else "read_only"))
        ∷ ("max_attempts", nat 2)
        ∷ []))

abbrev pub fence_of : Option ℤ → Value
fence_of none = null
fence_of (some n) = int n

-- The call that is dispatched: its identity, its tool and its arguments.
pub record Call : Type 0 where
  pub id : String
  pub tool : String
  pub args : Value

abbrev pub push_attempt : Value → Session → Session
push_attempt attempt s = record s { attempts_pending = s.attempts_pending ++ attempt ∷ [] }

-- How the parts before an attempt end: with the action's result, or with the execution and the
-- number of its latest attempt.
pub data Recovery : Type 0 where
  settled : String → Recovery
  unsettled : Value → ℤ → Recovery

abbrev pub event_of : String → List (String × Value) → Value
event_of kind fields = object (("type", str kind) ∷ fields)

abbrev pub status_event : String → Value
status_event message = event_of "status" (("message", str message) ∷ [])

abbrev pub recovery_error : String → List (String × Value) → Value
recovery_error message kind = object (
    kind
    ++ ("code", str "recovery_required")
      ∷ ("message", str message)
      ∷ ("recoverable", bool true)
      ∷ [])

module _ (host : Host) (env : Env) (config : Config) (call : Call) where
  pub new_execution : Session → String → String → String → String → Value
  new_execution s namespace id key digest =
      let target = target_of call.tool in
      let e = object (
        ("execution_id", str id)
        ∷ ("run_id", text s.run_id)
        ∷ ("command_id", text s.run_command_id)
        ∷ ("namespace", str namespace)
        ∷ ("target", str target)
        ∷ ("call_id", str call.id)
        ∷ ("tool", str call.tool)
        ∷ ("arguments", call.args)
        ∷ ("policy", policy_of config call.tool)
        ∷ ("idempotency_key", str key)
        ∷ ("payload_sha256", str digest)
        ∷ ("key_algorithm", str "agent-action-v1")
        ∷ ("attempts", nat 0)
        ∷ ("status", str "pending")
        ∷ ("result", null)
        ∷ []) in
      if str_eq call.tool fixture
      then set "recipient"
          (object (
            ("target", str "fixture://action-receipts")
            ∷ ("key_scope", str "deployment")
            ∷ ("retention_seconds", null)
            ∷ ("outcome_query", bool true)
            ∷ []))
          e
      else e

  -- The intent of a call that has none is committed first.
  unfoldable pub intend : String → Session → Action Value
  unfolding new_execution
  intend namespace s = draw_id env >>= λ id. lift (env.action_key namespace s.id id) >>= λ key.
      lift (env.payload_digest call.tool (target_of call.tool) call.args) >>= λ digest.
      let e = new_execution s namespace id key digest in
      modify (stage_execution host e)
      >> audit env "tool_intent" e
      >> checkpoint env
          (event_of "tool_intent" (("execution_id", str id) ∷ ("tool_call_id", str call.id) ∷ []))
      >> return e

  abbrev pub intend_or : String → Session → Option Value → Action Value
  intend_or namespace s (some e) = return e
  intend_or namespace s none = intend namespace s

  abbrev pub found_execution : Session → Option Value
  found_execution s = find (λ e. text_is (index "call_id" e) call.id) s.executions

  abbrev frozen_key : Value → Result String String → Result String (Unit {0})
  frozen_key e (err x) = err x
  frozen_key e (ok key) =
      if text_is (index "idempotency_key" e) key
      then ok tt
      else err "frozen action identity differs from its ledger-derived key"

  abbrev frozen_id : String → Session → Value → Option String → Result String (Unit {0})
  frozen_id namespace s e none = err "missing action identity"
  frozen_id namespace s e (some id) = frozen_key e (env.action_key namespace s.id id)

  -- The identity of the execution is the one that its ledger gives.
  unfoldable pub check_identity : String → Session → Value → Result String (Unit {0})
  check_identity namespace s e =
      if not (text_is (index "namespace" e) namespace)
        || not (text_is (index "target" e) (target_of call.tool))
        || not (text_is (index "key_algorithm" e) "agent-action-v1")
      then err "frozen action identity differs from its ledger-derived key"
      else frozen_id namespace s e (as_str (index "execution_id" e))

  abbrev frozen_digest : Value → Result String String → Result String (Unit {0})
  frozen_digest e (err x) = err x
  frozen_digest e (ok digest) =
      if text_is (index "payload_sha256" e) digest
      then ok tt
      else err "frozen action payload changed"

  -- So is its payload.
  unfoldable pub check_payload : Value → Result String (Unit {0})
  check_payload e =
      if not (text_is (index "tool" e) call.tool)
        || not (value_eq host (index "arguments" e) call.args)
      then err "frozen action payload changed"
      else frozen_digest e
          (env.payload_digest call.tool (or_else (as_str (index "target" e)) "") call.args)

  abbrev pub is_terminal : Value → Bool
  is_terminal e = text_is (index "status" e) "succeeded" || text_is (index "status" e) "failed"

  abbrev larger : ℤ → Option ℤ → Option ℤ
  larger n none = some n
  larger n (some m) = if ltb_ℤ m n then some n else some m

  abbrev with_number : Option ℤ → Option ℤ → Option ℤ
  with_number none m = m
  with_number (some n) m = larger n m

  abbrev latest_number : List Value → Option ℤ
  latest_number [] = none
  latest_number (a ∷ as') = with_number (as_i64 (index "attempt_number" a)) (latest_number as')

  abbrev pub attempts_of : Value → ℤ
  attempts_of e = or_else (as_i64 (index "attempts" e)) (pos 0)

  abbrev pub records_of : Value → List Value
  records_of e = or_else (as_array (index "attempt_records" e)) []

  -- A started attempt of a former owner has an unknown outcome.
  abbrev settle_attempt : Value → Action (Unit {0})
  settle_attempt a = draw_time env >>= λ now.
      let a' =
        set "evidence" (object (("reason", str "previous_owner_did_not_record_an_outcome") ∷ []))
          (set "finished_at" (str now) (set "status" (str "uncertain") a)) in
      modify (push_attempt a') >> audit env "tool_attempt_settled" a'

  abbrev settle_if : Bool → Value → Action (Unit {0})
  settle_if true a = settle_attempt a
  settle_if false a = return tt

  unfoldable pub settle_previous : List Value → Action (Unit {0})
  settle_previous [] = return tt
  settle_previous (a ∷ as') =
      settle_if (text_is (index "status" a) "started") a >> settle_previous as'

  abbrev pub record_uncertainty : Session → Action (Unit {0})
  record_uncertainty s =
      if is_empty s.attempts_pending
      then return tt
      else checkpoint env (status_event "Recorded prior attempt uncertainty.")

  abbrev pub mode_of : Value → String
  mode_of e = or_else (as_str (index "mode" (index "policy" e))) "reconcile"

  -- An attempt record as it starts.
  attempt_record : Session → String → Value → ℤ → String → String → Value
  attempt_record s kind e number id now = object (
      ("attempt_id", str id)
      ∷ ("execution_id", index "execution_id" e)
      ∷ ("command_id", index "id" (command_of s))
      ∷ ("attempt_number", int number)
      ∷ ("kind", str kind)
      ∷ ("status", str "started")
      ∷ ("owner", text s.execution_owner)
      ∷ ("fence", fence_of s.execution_fence)
      ∷ ("payload_sha256", index "payload_sha256" e)
      ∷ ("started_at", str now)
      ∷ ("finished_at", null)
      ∷ ("evidence", null)
      ∷ [])

  -- The recipient has the receipt: its outcome is recorded as the action's.
  recovered : Value → Value → String → Action Recovery
  recovered e verification result =
      let v =
        set "evidence"
          (object (
            ("source", str "recipient-primary")
            ∷ ("receipt_present", bool true)
            ∷ ("result", str result)
            ∷ []))
          (set "external_reference" (index "idempotency_key" e)
            (set "status" (str "succeeded") verification)) in
      let e' =
        set "finished_at" (index "finished_at" v)
          (set "result" (str result) (set "status" (str "succeeded") e)) in
      modify (push_attempt v)
      >> audit env "tool_attempt_settled" v
      >> modify (stage_execution host e')
      >> checkpoint env (status_event "Recovered the committed recipient outcome.")
      >> return (settled result)

  -- It does not, or differs.
  unknown : Value → Value → ℤ → Action Recovery
  unknown e verification number =
      let v =
        set "evidence"
          (object (("source", str "recipient-primary") ∷ ("outcome", str "unknown") ∷ []))
          (set "status" (str "uncertain") verification) in
      modify (push_attempt v)
      >> audit env "tool_attempt_settled" v
      >> checkpoint env (status_event "Recipient evidence did not establish an outcome.")
      >> return (unsettled e number)

  verified : Value → Value → ℤ → Option (String × Value) → Action Recovery
  unfolding recovered unknown
  verified e verification number none = unknown e verification number
  verified e verification number (some (fingerprint, result)) =
      if text_is (index "payload_sha256" e) fingerprint
      then (lift (env.canonical result) >>= λ r. recovered e verification r)
      else unknown e verification number

  verify : String → Value → ℤ → Session → Action Recovery
  unfolding verified attempt_record
  verify namespace e number s = draw_id env >>= λ id. draw_time env >>= λ started.
      let a = attempt_record s "verify" e number id started in
      modify (push_attempt a)
      >> audit env "tool_attempt" a
      >> checkpoint env (status_event "Verifying the original recipient receipt.")
      >> query env namespace (index "idempotency_key" e)
      >>= λ row. draw_time env >>= λ now. verified e (set "finished_at" (str now) a) number row

  unfoldable pub reconcile : String → Value → ℤ → Action Recovery
  unfolding verify
  reconcile namespace e ordinal =
      if not (text_is (index "status" e) "pending")
        && str_eq (mode_of e) "reconcile"
        && str_eq call.tool fixture
      then (current >>= verify namespace e (add64 ordinal (pos 1)))
      else return (unsettled e ordinal)

  abbrev pub blocked : String → Session → Session
  blocked message s = record s {
    status = "failed";
    run_status = "blocked";
    last_error = some (recovery_error message []);
  }

  -- Whether an action that is not pending may be tried again without a resolution.
  abbrev pub may_repeat : Value → Bool
  may_repeat e =
      text_is (index "status" e) "pending"
      || (str_eq (mode_of e) "read_only" || str_eq (mode_of e) "repeatable")
      || (str_eq (mode_of e) "idempotent" && str_eq call.tool fixture)

  unfoldable pub commit_block : Value → Action (Unit {0})
  commit_block e =
      let e' = set "status" (str "blocked") e in
      modify (blocked "Safe recovery requires operator resolution")
      >> modify (stage_execution host e')
      >> audit env "tool_recovery_required" e'
      >> checkpoint env
          (recovery_error "Authoritative reconciliation is required" (("type", str "error") ∷ []))

  abbrev pub block : Value → Action (Unit {0})
  block e = commit_block e >> fail "recovery_required"

  abbrev pub max_attempts : Value → ℤ
  max_attempts e = or_else (as_i64 (index "max_attempts" (index "policy" e))) (pos 2)

  -- Whether the action may be dispatched once more.
  unfoldable pub admit : Value → Action (Unit {0})
  admit e =
      if not (may_repeat e)
      then block e
      else if leb_ℤ (max_attempts e) (attempts_of e)
      then fail "recovery_required: action dispatch bound reached"
      else if str_eq (mode_of e) "idempotent" && not (str_eq call.tool fixture)
      then fail "recovery_required: no trusted recipient guarantee"
      else return tt

  -- The execution of an attempt that starts.
  unfoldable pub started_execution : Value → String → Value
  started_execution e now =
      let e' =
        set "attempts" (int (add64 (attempts_of e) (pos 1))) (set "status" (str "started") e) in
      if is_none (get "started_at" e') then set "started_at" (str now) e' else e'

  abbrev pub stage_attempt : Value → Value → Session → Session
  stage_attempt a e s = stage_execution host e (push_attempt a s)

  abbrev pub started_event : Value → ℤ → Value
  started_event e attempts =
      event_of "tool_started"
        (("execution_id", index "execution_id" e) ∷ ("attempt", int (add64 attempts (pos 1))) ∷ [])

  -- The outcome of an attempt that returned.
  settle_result : Value → Value → String → Action String
  settle_result e a result =
      let status = if is_failure result then "failed" else "succeeded" in
      let a' =
        set "evidence" (object (("result", str result) ∷ [])) (set "status" (str status) a) in
      let e' =
        set "finished_at" (index "finished_at" a')
          (set "result" (str result) (set "status" (str status) e)) in
      modify (push_attempt a')
      >> audit env "tool_attempt_settled" a'
      >> modify (stage_execution host e')
      >> audit env "tool_outcome" (
          object (
            ("execution_id", index "execution_id" e')
            ∷ ("status", str status)
            ∷ ("result", str result)
            ∷ []))
      >> checkpoint env (event_of "tool_settled" (("execution_id", index "execution_id" e') ∷ []))
      >> return result

  -- The outcome of an attempt that failed is uncertain.
  settle_error : Value → Value → String → Action String
  settle_error e a error =
      let a' =
        set "error" (object (("message", str error) ∷ [])) (set "status" (str "uncertain") a) in
      let e' = set "status" (str "uncertain") e in
      modify (blocked "Action outcome is uncertain")
      >> modify (push_attempt a')
      >> audit env "tool_attempt_settled" a'
      >> modify (stage_execution host e')
      >> checkpoint env (recovery_error "Action outcome is uncertain" (("type", str "error") ∷ []))
      >> fail "recovery_required"

  settle_output : Value → Value → Result String String → Action String
  unfolding settle_result settle_error
  settle_output e a (ok result) = settle_result e a result
  settle_output e a (err error) = settle_error e a error

  unfoldable pub settle : Value → Value → Result String String → Action String
  unfolding settle_output
  settle e a output =
      draw_time env >>= λ now. settle_output e (set "finished_at" (str now) a) output

  -- An attempt: its start is committed, then the tool runs, then its outcome is committed.
  unfoldable pub attempt : String → Value → ℤ → Action String
  unfolding attempt_record
  attempt namespace e ordinal = draw_time env >>= λ now. draw_id env >>= λ id. current >>= λ s.
      let a = attempt_record s "dispatch" e (add64 ordinal (pos 1)) id now in
      let e' = started_execution e now in
      modify (stage_attempt a e')
      >> audit env "tool_attempt" a
      >> checkpoint env (started_event e' (attempts_of e))
      >> invoke env call.tool namespace (index "idempotency_key" e') call.args
      >>= settle e' a

  abbrev pub launch : String → Recovery → Action String
  launch namespace (settled result) = return result
  launch namespace (unsettled e ordinal) = admit e >> attempt namespace e ordinal

  -- The parts between the frozen identity and a new attempt.
  unfoldable pub recover : String → Value → Action Recovery
  recover namespace e =
      settle_previous (records_of e)
      >> current
      >>= record_uncertainty
      >> reconcile namespace e (or_else (latest_number (records_of e)) (attempts_of e))

  abbrev pub terminal_result : Value → Result String String
  terminal_result e = ok_or (as_str (index "result" e)) "terminal action lacks result"

  unfoldable pub resume : String → Value → Action String
  resume namespace e = current >>= λ s.
      lift (check_identity namespace s e)
      >> lift (check_payload e)
      >> (if is_terminal e
          then lift (terminal_result e)
          else (recover namespace e >>= launch namespace))

  dispatch_in : Session → Action String
  dispatch_in s =
      let namespace = namespace_of (command_of s) in
      intend_or namespace s (found_execution s) >>= resume namespace

  unfoldable pub dispatch : Action String
  unfolding dispatch_in
  dispatch = current >>= dispatch_in
