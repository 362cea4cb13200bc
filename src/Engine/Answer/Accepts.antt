-- ===== src/Engine/Answer/Accepts.antt =====
-- When a final answer completes a session in agent-rust/src/engine.rs.
use state_driven_agent.Common.{
  ltb, ◌+◌, ◌%◌, ◌^◌, some, String, Bool, true, false, List, [], ◌∷◌, ◌≡◌, refl, or_else, str_eq,
  if◌then◌else◌,
}
use state_driven_agent.Json.{Value, index, as_str}
use state_driven_agent.Json.Host.{Host}
use state_driven_agent.Config.{Config}
use state_driven_agent.Session.{Session}
use state_driven_agent.Workflow.{is_complete}
use state_driven_agent.Policy.{increment_invalid, invalid_limit}
use state_driven_agent.Completion.{completion_errors}
use state_driven_agent.Progress.Uncompleted.{
  IsUncompleted, Uncompletes, Uncompletes-bind, Uncompletes-if, checkpoint-Uncompletes,
  append-Uncompletes, observe_progress-Uncompletes,
}
use state_driven_agent.Actions.{World, Env, current, return, ◌>>=◌}
use state_driven_agent.Engine.Settle.{count_invalid, report_limit}
use state_driven_agent.Engine.Parts.{Parts}
use state_driven_agent.Engine.Answer.{reject_answer, accept_answer, judged, judge_answer}

module _ (host : Host) (env : Env) (config : Config) (parts : Parts) where
  increment_invalid-IsUncompleted :
      (s : Session) → IsUncompleted s → IsUncompleted (increment_invalid config s).0
  unfolding increment_invalid
  increment_invalid-IsUncompleted s h =
      go (ltb ((s.consecutive_invalid_responses + 1) % 2 ^ 64) (invalid_limit config))
    where
      go :
          (b : Bool)
          → IsUncompleted
              (if◌then◌else◌ {A = Session × Bool} b
                (
                  record s {
                    consecutive_invalid_responses = (s.consecutive_invalid_responses + 1) % 2 ^ 64;
                  },
                  false,
                )
                (
                  record s {
                    consecutive_invalid_responses = (s.consecutive_invalid_responses + 1) % 2 ^ 64;
                    status = "failed";
                    run_status = "failed";
                    final_answer =
                        some "Consecutive invalid-response limit reached. Resume to retry.";
                  },
                  true,
                )).0
      go true = h
      go false = refl

  count_invalid-Uncompletes : Uncompletes (count_invalid host env config)
  count_invalid-Uncompletes = record {
    uncompletes = λ w h. increment_invalid-IsUncompleted w.session h;
  }

  report_limit-Uncompletes : (reached : Bool) → Uncompletes (report_limit host env config reached)
  report_limit-Uncompletes reached =
      Uncompletes-if reached _ _
        (Uncompletes-bind current _ (record { uncompletes = λ w h. h })
          λ s. checkpoint-Uncompletes env _)
        (record { uncompletes = λ w h. h })

  reject_answer-Uncompletes :
      (before answer : String) (errors : List String)
      → Uncompletes (reject_answer host env config parts before answer errors)
  unfolding reject_answer
  reject_answer-Uncompletes before answer errors =
      Uncompletes-bind current _ (record { uncompletes = λ w h. h })
        λ s.
          Uncompletes-bind _ _
            (Uncompletes-bind _ _
              (Uncompletes-bind _ _ (append-Uncompletes env _) λ _.
                Uncompletes-bind current _ (record { uncompletes = λ w h. h })
                  λ t.
                    Uncompletes-bind _ _ (append-Uncompletes env _)
                      λ _. checkpoint-Uncompletes env _)
              λ _. count_invalid-Uncompletes)
            λ reached.
              Uncompletes-bind _ _
                (Uncompletes-bind _ _ (report_limit-Uncompletes reached)
                  λ _. observe_progress-Uncompletes env host config before)
                λ _. record { uncompletes = λ w h. h }

  contradiction : {A : Type 0} {b : Bool} → b ≡ false → b ≡ true → A
  contradiction h k = absurd (cc (h, k))

  judged-accepts :
      (before answer : String) (w : World) (errors : List String)
      → IsUncompleted w.session
      → str_eq
          (judged host env config parts before answer w.session errors w).1.session.status
          "complete"
        ≡ true
      → (errors ≡ []) × (is_complete host config w.session ≡ true)
  unfolding judged
  judged-accepts before answer w [] h k = (refl, go (is_complete host config w.session) refl k)
    where
      go :
          (b : Bool)
          → is_complete host config w.session ≡ b
          → str_eq
              ((if b then accept_answer host env config parts answer else return (some true))
                w).1.session.status
              "complete"
            ≡ true
          → is_complete host config w.session ≡ true
      go true e f = e
      go false e f = contradiction h f
  judged-accepts before answer w (e ∷ es) h k =
      contradiction ((reject_answer-Uncompletes before answer (e ∷ es)).uncompletes w h) k

  -- If judging a final answer leads from a session that is not complete to one that is, whatever
  -- else it returns, then the answer has no completion error in the session as it was, and its
  -- workflow is complete.
  pub judge_answer-accepts :
      (before : String) (d : Value) (w : World)
      → IsUncompleted w.session
      → str_eq (judge_answer host env config parts before d w).1.session.status "complete" ≡ true
      → (completion_errors host config w.session (or_else (as_str (index "content" d)) "") ≡ [])
        × (is_complete host config w.session ≡ true)
  unfolding judge_answer ◌>>=◌
  judge_answer-accepts before d w h k = judged-accepts before _ w _ h k
