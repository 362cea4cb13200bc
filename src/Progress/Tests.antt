-- ===== src/Progress/Tests.antt =====
-- Two outputs, one of them seen before; and a decision that makes no progress.
use state_driven_agent.Common.{String, List, true, [], ◌∷◌, ◌≡◌, ◌≤◌, refl, length, contains_text}
use state_driven_agent.Json.Sample.{sample_host}
use state_driven_agent.Config.Sample.{config}
use state_driven_agent.Session.Sample.{blank}
use state_driven_agent.Actions.Sample.{env}
use state_driven_agent.Actions.{World}
use state_driven_agent.Progress.{remember, observe_progress, progress_fingerprint}
use state_driven_agent.Progress.Laws.{remember-length-contains}
use state_driven_agent.Progress.Counted.{IsObserved, observe_progress-IsObserved}
use state_driven_agent.Config.{Config}
use state_driven_agent.Json.{object, nat}

remember_test : remember "b" ("a" ∷ "b" ∷ []) ≡ ("a" ∷ "b" ∷ [])
unfolding remember
remember_test = refl

abbrev seen : List String
seen = "a" ∷ []

remember-length-contains_example :
    (length (remember "c" seen) ≤ 64)
    × (length seen ≤ 64 → contains_text (remember "c" seen) "c" ≡ true)
remember-length-contains_example = remember-length-contains "c" seen

abbrev fresh : World
fresh = record { session = blank; log = [] }

-- The second decision in a row without progress, whose limit is four.
abbrev stuck : World
stuck = record fresh { session = record blank { no_progress_steps = 1 } }

abbrev bounded : Config
bounded = record config { execution = object (("max_no_progress_steps", nat 4) ∷ []) }

observe_progress-IsObserved_example :
    IsObserved sample_host env bounded
      (progress_fingerprint sample_host bounded stuck.session)
      stuck
      (observe_progress env sample_host bounded
        (progress_fingerprint sample_host bounded stuck.session)
        stuck)
observe_progress-IsObserved_example =
    observe_progress-IsObserved sample_host env bounded
      (progress_fingerprint sample_host bounded stuck.session) stuck
