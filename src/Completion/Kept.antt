-- ===== src/Completion/Kept.antt =====
-- What capturing artifacts in agent-rust/src/engine.rs leaves of a session.
use state_driven_agent.Common.{
  ℕ, String, Bool, true, false, Option, none, some, List, [], ◌∷◌, refl, ◌∙◌, if◌then◌else◌,
  enumerate_from,
}
use state_driven_agent.Json.{Value, Fields}
use state_driven_agent.Json.Host.{Host}
use state_driven_agent.Config.{Config}
use state_driven_agent.Session.{Session}
use state_driven_agent.Session.Kept.{Kept}
use state_driven_agent.Workflow.{is_failure}
use state_driven_agent.Policy.{result_checks}
use state_driven_agent.Completion.{
  extract_result, captures_call, captured, capture_from, capture_artifacts,
}

module _ (host : Host) (config : Config) (id name : String) (args : Fields) (output : String) where
  captured-Kept :
      (s : Session) (i : ℕ) (o : Option Value) → Kept s (captured host config s i o id name args)
  unfolding captured
  captured-Kept s i none = refl
  captured-Kept s i (some v) = refl

  if-Kept : (b : Bool) (s t : Session) → Kept s t → Kept s (if b then t else s)
  if-Kept true s t k = k
  if-Kept false s t k = refl

  capture_from-Kept :
      (checks : List (ℕ × Value)) (s : Session)
      → Kept s (capture_from host config checks s id name args output)
  unfolding capture_from
  capture_from-Kept [] s = refl
  capture_from-Kept ((i, check) ∷ checks) s =
      capture_from-Kept checks _
      ∙ if-Kept (captures_call host config check name args output) s _
          (captured-Kept s i (extract_result host check output))

  pub capture_artifacts-Kept :
      (s : Session) → Kept s (capture_artifacts host config s id name args output)
  unfolding capture_artifacts
  capture_artifacts-Kept s = go (is_failure output)
    where
      go :
          (b : Bool)
          → Kept s (
              if b
              then s
              else capture_from host config
                  (enumerate_from 0 (result_checks config))
                  s
                  id
                  name
                  args
                  output)
      go true = refl
      go false = capture_from-Kept (enumerate_from 0 (result_checks config)) s
