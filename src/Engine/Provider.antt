-- ===== src/Engine/Provider.antt =====
-- agent-rust/src/engine.rs: the requests to the provider, `completion_urls`, `request_diagnostic`, `post_chat` and
-- `decide`. What the HTTP client answers is a parameter. The redacted line that a failure writes to the
-- log of the operator is left out.
pub mod Exchange
mod Tests
use state_driven_agent.Common.{
  ℕ, ◌+◌, String, Bool, true, false, not, ◌&&◌, ◌||◌, Option, none, some, List, [], ◌∷◌, ◌++◌, map,
  if◌then◌else◌, str_eq, is_none, is_empty, is_some_and, or_else, contains_substring, leb, ltb,
  ◌==◌, ◌+++◌, Result, ok, err,
}
use Prim.Native.Char.{code}
use Prim.Native.String
use Prim.Native.String.{len}
use state_driven_agent.Common.Int.{ℤ, ◌-ℤ◌, to_pattern, of_pattern}
use state_driven_agent.Json.{
  Value, str, nat, bool, obj, object, array, get, get_str, as_str, as_u64, as_i64, ◌and_then◌,
}
use state_driven_agent.Json.Host.{Host}
use state_driven_agent.Config.{Config}
use state_driven_agent.Session.{Session, Message, wire_message}
use state_driven_agent.Decision.{parse_decision, invalid}
use state_driven_agent.Actions.{
  Effect, requested, World, Env, Action, return, fail, ◌>>=◌, current, set, int,
}
use state_driven_agent.Engine.Wire.{Fault}
use state_driven_agent.Engine.Request.{decision_payload}

-- What a request comes to, with the milliseconds that it took: no response, a response whose body is not read,
-- where the flag tells a timeout, or a status with the body as JSON, where it is.
pub data Reply : Type 0 where
  unsent : Bool → ℕ → Reply
  unread : ℕ → Bool → ℕ → Reply
  answered : ℕ → Option Value → ℕ → Reply

-- The client, whose replies are functions of the effects before them, and the environment variables.
pub record Http : Type 0 where
  pub send : List Effect → String → String → Value → Reply
  pub variable : String → Option String

-- `base.strip_suffix(t)`
abbrev strip_suffix : String → String → Option String
strip_suffix t String.[] = if str_eq t "" then some "" else none
strip_suffix t (String.◌∷◌ c s) =
    let rest = strip_suffix t s in
    if str_eq (String.◌∷◌ c s) t
    then some ""
    else (rest and_then λ front. some (String.◌∷◌ c front))

-- `trim_end_matches('/')`
abbrev trim_slashes : String → String
trim_slashes String.[] = ""
trim_slashes (String.◌∷◌ c s) =
    let t = trim_slashes s in if str_eq t "" && code c == b'/' then "" else String.◌∷◌ c t

-- `completion_urls`
unfoldable pub completion_urls : Config → List String
completion_urls config =
    let base = trim_slashes config.llm.base_url in
    let suffix : String = "/chat/completions" in
    if not (is_none (strip_suffix suffix base))
    then base ∷ []
    else (base +++ suffix)
      ∷ elim (strip_suffix "/v1" base) [ some root ↦ (root +++ suffix) ∷ [] | none ↦ [] ]

-- `a - b` on `i64`, which wraps around.
abbrev sub64 : ℤ → ℤ → ℤ
sub64 a b = of_pattern (to_pattern (a -ℤ b))

abbrev set_if : String → Option Value → Value → Value
set_if k none v = v
set_if k (some x) v = set k x v

module _ (config : Config) where
  abbrev input_budget : ℤ
  input_budget =
      sub64 (sub64 config.memory.context_window_tokens config.memory.reserved_output_tokens)
        config.memory.safety_margin_tokens

  abbrev has_count : String → Value → Bool
  has_count k usage = not (is_none (get k usage and_then as_u64))

  abbrev usage_known : Option Value → Bool
  usage_known usage =
      is_some_and usage λ x. has_count "prompt_tokens" x && has_count "completion_tokens" x

  -- `request_diagnostic`
  unfoldable pub request_diagnostic :
      String → ℕ → ℤ → ℕ → Option ℕ → Option String → Option Value → Value
  unfolding set ◌-ℤ◌
  request_diagnostic kind bytes most elapsed status failure usage =
      let value = object (
        ("kind", str kind)
        ∷ ("serialized_request_bytes", nat bytes)
        ∷ ("elapsed_ms", nat elapsed)
        ∷ ("tool_call_mode", str config.llm.tool_call_mode)
        ∷ ("input_budget_tokens", int input_budget)
        ∷ ("max_output_tokens", int most)
        ∷ ("usage_known", bool (usage_known usage))
        ∷ []) in
      let told =
        set_if "failure" (failure and_then λ f. some (str f))
          (set_if "http_status" (status and_then λ n. some (nat n)) value) in
      set_if "total_tokens" (usage and_then get "total_tokens") (
        set_if "completion_tokens" (usage and_then get "completion_tokens")
          (set_if "prompt_tokens" (usage and_then get "prompt_tokens") told))

-- What a request fails with: a code, a message and the diagnostics.
pub record Failure : Type 0 where
  pub failure_code : String
  pub failure_message : String
  pub failure_diagnostics : List Value

pub data Outcome : Type 0 where
  received : Value → List Value → Outcome
  broken : Failure → Outcome

abbrev transport_code : Bool → String
transport_code timeout = if timeout then "model_timeout" else "model_transport_error"

abbrev transport_message : Bool → String
transport_message timeout =
    if timeout then "Upstream model request timed out." else "Upstream model transport failed."

-- `status.is_server_error() || status.is_client_error()`
abbrev pub is_error_status : ℕ → Bool
is_error_status status = leb 400 status && ltb status 600

-- `a.or_else(b)`
abbrev either : Option String → Option String → Option String
either none b = b
either (some a) b = some a

-- The text of the error that a provider gives.
abbrev error_text : Option Value → Option String
error_text none = none
error_text (some x) = either (get "error" x and_then get_str "message") (get_str "error" x)

abbrev provider_error : Host → Option Value → String
provider_error host parsed = host.lowercase (or_else (error_text parsed) "")

abbrev is_template_error : String → Bool
is_template_error text =
    contains_substring text "single tool-call"
    || contains_substring text "single tool call"
    || contains_substring text "jinja"
    || contains_substring text "rendering prompt"

abbrev failure_of : Host → ℕ → Option Value → Option String
failure_of host status parsed =
    if is_error_status status
    then some (
        if is_template_error (provider_error host parsed)
        then "model_template_error"
        else "model_http_error")
    else if is_none parsed
    then some "invalid_model_response"
    else none

abbrev message_of : String → String
message_of code =
    if str_eq code "model_template_error"
    then "Model prompt template could not render the request."
    else if str_eq code "model_http_error"
    then "Model service returned an HTTP error."
    else "Model service returned invalid JSON."

abbrev broken_by : String → String → List Value → Outcome
broken_by code message diagnostics =
    broken
      (record { failure_code = code; failure_message = message; failure_diagnostics = diagnostics })

module _ (host : Host) (config : Config) (http : Http) (payload : Value) where
  abbrev request_kind : String
  request_kind = if is_none (get "tool_choice" payload) then "summary" else "decision"

  abbrev most_tokens : ℤ
  most_tokens =
      or_else (get "max_tokens" payload and_then as_i64)
        (or_else config.llm.max_output_tokens config.memory.reserved_output_tokens)

  abbrev token : String
  token = or_else (http.variable config.llm.api_key_env) "local-not-required"

  diagnostic : ℕ → Option ℕ → Option String → Option Value → Value
  unfolding request_diagnostic
  diagnostic elapsed status failure usage =
      request_diagnostic config request_kind (len (host.json_text payload)) most_tokens elapsed
        status failure usage

  abbrev pub send : String → Action Reply
  send url w =
      (ok (http.send w.log url token payload), record w { log = requested url payload ∷ w.log })

  -- What an answer with a body comes to where no other route is asked.
  abbrev concluded : Option String → Option Value → List Value → Outcome
  concluded (some code) parsed diagnostics = broken_by code (message_of code) diagnostics
  concluded none none diagnostics =
      broken_by "invalid_model_response" (message_of "invalid_model_response") diagnostics
  concluded none (some v) diagnostics = received v diagnostics

  -- What follows a reply: `next` asks the other routes, of which there are some where `more` is.
  abbrev replied : (List Value → Action Outcome) → Bool → List Value → Reply → Action Outcome
  unfolding diagnostic
  replied next more before (unsent timeout elapsed) = return (
      broken_by (transport_code timeout) (transport_message timeout)
        (before ++ diagnostic elapsed none (some (transport_code timeout)) none ∷ []))
  replied next more before (unread status timeout elapsed) = return (
      broken_by (transport_code timeout) (transport_message timeout)
        (before ++ diagnostic elapsed (some status) (some (transport_code timeout)) none ∷ []))
  replied next more before (answered status parsed elapsed) =
      let failure = failure_of host status parsed in
      let diagnostics =
        before ++ diagnostic elapsed (some status) failure (parsed and_then get "usage") ∷ [] in
      if status == 404 && more
      then next diagnostics
      else return (concluded failure parsed diagnostics)

  abbrev pub post_from : List String → List Value → Action Outcome
  unfolding replied
  post_from [] diagnostics =
      return (broken_by "model_http_error" "Model completion route unavailable." diagnostics)
  post_from (url ∷ urls) diagnostics =
      send url >>= replied (post_from urls) (not (is_empty urls)) diagnostics

  -- `post_chat`
  unfoldable pub post_chat : Action Outcome
  unfolding post_from completion_urls
  post_chat = post_from (completion_urls config) []
