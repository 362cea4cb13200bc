-- ===== src/Workflow/Tests.antt =====
-- A workflow of one phase, which asks for a valid result and then completes.
use state_driven_agent.Common.{ℕ, String, true, false, some, List, [], ◌∷◌, ◌≡◌, refl, ◌⊎◌, ◌↔◌}
use state_driven_agent.Json.{end, lookup}
use state_driven_agent.Match.{contains}
use state_driven_agent.Json.Sample.{sample_host}
use state_driven_agent.Config.{Edge, WorkflowConfig}
use state_driven_agent.Session.{Workflow, Session}
use state_driven_agent.Session.Sample.{blank}
use state_driven_agent.Workflow.{
  edge_open, phase, evidence_matches, record_evidence, advance, started, key,
}
use state_driven_agent.Workflow.Keys.{transition, key_of_slots_injective}
use state_driven_agent.Workflow.Observed.{IsRecorded, record_evidence-IsRecorded}
use state_driven_agent.Workflow.Advance.{IsTaken, advance-IsTaken, Ready, edge_open_iff}
use state_driven_agent.Workflow.Replay.{
  Event, result, step, replay, Traced, Shown, observed, replay-Traced, replay-observed,
}
use state_driven_agent.Config.Sample.{inspect, plan, config, entered, shown, finished}

abbrev events : List Event
events = step ∷ result "validate" end "{\"valid\":true}" ∷ step ∷ []

tests : Unit {0}
unfolding replay record_evidence advance evidence_matches contains lookup key
tests = tt

replay_test : (replay sample_host config blank events).workflow ≡ some finished
unfolding tests
replay_test = refl

-- Without the evidence the phase stays active; so does it with a result that does not fit.
replay_early_test :
    (replay sample_host config blank (step ∷ result "validate" end "7" ∷ step ∷ [])).workflow
    ≡ some entered
unfolding tests
replay_early_test = refl

replay-Traced_example : Traced "inspect" (replay sample_host config blank events).workflow
replay-Traced_example = replay-Traced sample_host config plan refl blank events tt

replay-observed_example :
    (observed (replay sample_host config blank events).workflow "inspect:completion:0" ≡ true
      → (false ≡ true) ⊎ Shown sample_host config "inspect:completion:0" events)
    × (false ≡ true
        → observed (replay sample_host config blank events).workflow "inspect:completion:0" ≡ true)
replay-observed_example = replay-observed sample_host config blank events "inspect:completion:0"

abbrev before_last : Session
before_last = record blank { workflow = some shown }

abbrev edge : Edge
edge = record { to = "complete"; when = "phase_complete"; evidence = [] }

abbrev blank_entered : Session
blank_entered = record blank { workflow = some entered }

advance-IsTaken_example :
    (c : WorkflowConfig) × (some plan ≡ some c)
    × IsTaken sample_host config
        (started sample_host config before_last c)
        (record blank { workflow = some finished })
        (record { from_phase = "inspect"; to_phase = "complete"; reason = "phase_complete" })
unfolding tests
advance-IsTaken_example = advance-IsTaken sample_host config before_last _ _ refl

record_evidence-IsRecorded_example :
    (w' : Workflow) × (record_evidence sample_host config
        (record blank { workflow = some entered })
        "validate"
        end
        "{\"valid\":true}"
      ≡ record blank { workflow = some w' })
    × IsRecorded sample_host inspect "validate" end "{\"valid\":true}" entered w'
unfolding tests phase
record_evidence-IsRecorded_example =
    record_evidence-IsRecorded sample_host config (record blank { workflow = some entered }) entered
      "inspect" inspect "validate" end "{\"valid\":true}" refl refl refl

key_of_slots_injective_example :
    (◌≡◌ {A = String} "a:completion:0" "a:completion:0")
    × (transition 1 ≡ transition 1)
    × (◌≡◌ {A = ℕ} 2 2)
key_of_slots_injective_example =
    key_of_slots_injective "a:completion:0" "a:completion:0" (transition 1) (transition 1) 2 2 refl

edge_open_iff_example :
    (edge_open sample_host config before_last inspect (0, edge) ≡ true)
    ↔ Ready sample_host config before_last inspect 0 edge
edge_open_iff_example = edge_open_iff sample_host config before_last inspect 0 edge
