-- ===== src/Workflow/Kept.antt =====
-- What recording evidence in agent-rust/src/engine.rs leaves of a session.
use state_driven_agent.Common.{ℕ, String, Option, none, some, refl}
use state_driven_agent.Json.{Fields}
use state_driven_agent.Json.Host.{Host}
use state_driven_agent.Config.{Phase, Edge, WorkflowConfig, Config}
use state_driven_agent.Session.{Workflow, Session}
use state_driven_agent.Session.Kept.{Kept, Held}
use state_driven_agent.Workflow.{
  phase, record_in, record_active, record_workflow, record_evidence, started, advance_by,
  advance_in, advance_phase, advance_active, advance_from, advance,
}

module _ (host : Host) (config : Config) (name : String) (args : Fields) (out : String) where
  in-Kept :
      (s : Session) (w : Workflow) (o : Option Phase)
      → Kept s (record_in host config s w o name args out)
  unfolding record_in
  in-Kept s w none = refl
  in-Kept s w (some p) = refl

  active-Kept :
      (s : Session) (w : Workflow) (o : Option String)
      → Kept s (record_active host config s w o name args out)
  unfolding record_active
  active-Kept s w none = refl
  active-Kept s w (some id) = in-Kept s w (phase host config id)

  pub record_evidence-Kept : (s : Session) → Kept s (record_evidence host config s name args out)
  unfolding record_evidence record_workflow
  record_evidence-Kept s = go s.workflow
    where
      go : (o : Option Workflow) → Kept s (record_workflow host config s o name args out)
      go none = refl
      go (some w) = active-Kept s w w.active_phase

-- What moving between phases leaves.
module _ (host : Host) (config : Config) where
  advance_by-Held :
      (s : Session) (w : Workflow) (p : Phase) (o : Option (ℕ × Edge))
      → Held s (advance_by host config s w p o).0
  unfolding advance_by
  advance_by-Held s w p none = refl
  advance_by-Held s w p (some (n, e)) = refl

  advance_in-Held :
      (s : Session) (w : Workflow) (o : Option Phase) → Held s (advance_in host config s w o).0
  unfolding advance_in
  advance_in-Held s w none = refl
  advance_in-Held s w (some p) = advance_by-Held s w p _

  advance_phase-Held :
      (s : Session) (w : Workflow) (o : Option String) → Held s (advance_phase host config s w o).0
  unfolding advance_phase
  advance_phase-Held s w none = refl
  advance_phase-Held s w (some id) = advance_in-Held s w (phase host config id)

  advance_active-Held :
      (s : Session) (o : Option Workflow) → Held s (advance_active host config s o).0
  unfolding advance_active
  advance_active-Held s none = refl
  advance_active-Held s (some w) = advance_phase-Held s w w.active_phase

  advance_from-Held :
      (s : Session) (o : Option WorkflowConfig) → Held s (advance_from host config s o).0
  unfolding advance_from started
  advance_from-Held s none = refl
  advance_from-Held s (some c) =
      advance_active-Held (started host config s c) (started host config s c).workflow

  pub advance-Held : (s : Session) → Held s (advance host config s).0
  unfolding advance
  advance-Held s = advance_from-Held s config.workflow
