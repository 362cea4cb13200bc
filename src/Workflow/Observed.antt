-- ===== src/Workflow/Observed.antt =====
-- What `record` of agent-rust/src/engine.rs establishes: which evidence keys a result adds.
use state_driven_agent.Common.{
  String, Bool, not, ◌&&◌, ◌||◌, Option, none, some, List, [], ◌∷◌, ◌++◌, ◌≡◌, refl, sym, ap, ◌∙◌,
  ◌⊎◌, inl, inr, arith, str_eq, eq_iff, any, contains_text, contains_text-concat, if◌then◌else◌,
}
use state_driven_agent.Json.{Fields}
use state_driven_agent.Json.Host.{Host}
use state_driven_agent.Config.{Phase, Config}
use state_driven_agent.Session.{Workflow, Session}
use state_driven_agent.Workflow.{
  key, Slot, phase_slots, evidence_matches, observe, phase, record_evidence, record_active,
  record_in, record_workflow,
}

-- Whether the result shows the evidence of the slot, and `k` is the slot's key.
abbrev pub shows : Host → String → String → Fields → String → String → Slot → Bool
shows host id name args out k slot =
    str_eq (key id slot.category slot.at) k && evidence_matches host slot.evidence name args out

module _ (host : Host) (id name : String) (args : Fields) (out : String) where
  abbrev add : Slot → List String → List String
  add slot observed =
      if not (contains_text observed (key id slot.category slot.at))
        && evidence_matches host slot.evidence name args out
      then observed ++ key id slot.category slot.at ∷ []
      else observed

  contains_text-add :
      (slot : Slot) (observed : List String) (k : String)
      → contains_text (add slot observed) k
        ≡ (contains_text observed k || shows host id name args out k slot)
  contains_text-add slot observed k = ground (
    arith,
    contains_text-concat observed (key id slot.category slot.at) k,
    eq_iff (key id slot.category slot.at) k,
  )

  contains_text-observe :
      (slots : List Slot) (observed : List String) (k : String)
      → contains_text (observe host id name args out slots observed) k
        ≡ (contains_text observed k || any (shows host id name args out k) slots)
  unfolding observe
  contains_text-observe [] observed k = ground arith
  contains_text-observe (slot ∷ slots) observed k =
      ground (
        arith,
        contains_text-observe slots (add slot observed) k,
        contains_text-add slot observed k,
      )

-- What one executed result does to the workflow.
pub record IsRecorded (host : Host) (p : Phase) (name : String) (args : Fields) (out : String)
    (w w' : Workflow) : Type 0 where
  pub keys :
      (k : String)
      → contains_text w'.observed_evidence k ≡ (
          contains_text w.observed_evidence k
          || any (shows host p.id name args out k) (phase_slots p))
  pub active : w'.active_phase ≡ w.active_phase
  pub completed : w'.completed_phases ≡ w.completed_phases
  pub transitions : w'.transitions ≡ w.transitions

-- With an active phase that the configuration has, record adds the keys of exactly those slots of
-- that phase whose evidence the result shows, and leaves the rest of the workflow as it was.
pub record_evidence-IsRecorded :
    (host : Host) (config : Config) (s : Session) (w : Workflow) (id : String) (p : Phase)
    (name : String) (args : Fields) (out : String)
    → s.workflow ≡ some w
    → w.active_phase ≡ some id
    → phase host config id ≡ some p
    → (w' : Workflow) × (record_evidence host config s name args out
        ≡ record s { workflow = some w' })
      × IsRecorded host p name args out w w'
unfolding record_evidence
record_evidence-IsRecorded host config s w id p name args out e f g = (
  record w {
    observed_evidence = observe host p.id name args out (phase_slots p) w.observed_evidence;
  },
  ap (λ o. record_workflow host config s o name args out) e
      ∙ ap (λ o. record_active host config s w o name args out) f
      ∙ ap (λ o. record_in host config s w o name args out) g,
  record {
    keys = contains_text-observe host p.id name args out (phase_slots p) w.observed_evidence;
    active = refl;
    completed = refl;
    transitions = refl;
  },
)

-- A result is recorded in the active phase of the configuration, or changes nothing.
pub record_evidence_cases :
    (host : Host) (config : Config) (s : Session) (name : String) (args : Fields) (out : String)
    → (record_evidence host config s name args out ≡ s)
      ⊎ ((w : Workflow) × (id : String) × (p : Phase) × (w' : Workflow) × (s.workflow ≡ some w)
          × (phase host config id ≡ some p)
          × (record_evidence host config s name args out ≡ record s { workflow = some w' })
          × IsRecorded host p name args out w w')
unfolding record_evidence
record_evidence_cases host config s name args out = go s.workflow refl
  where
    Cases : Session → Type 0
    Cases z =
        (z ≡ s)
        ⊎ ((w : Workflow) × (id : String) × (p : Phase) × (w' : Workflow) × (s.workflow ≡ some w)
            × (phase host config id ≡ some p)
            × (z ≡ record s { workflow = some w' })
            × IsRecorded host p name args out w w')

    found :
        (w : Workflow) (id : String) (o : Option Phase)
        → s.workflow ≡ some w
        → w.active_phase ≡ some id
        → phase host config id ≡ o
        → Cases (record_in host config s w o name args out)
    found w id none e f g = inl refl
    found w id (some p) e f g =
        let (w', same, recorded) =
          record_evidence-IsRecorded host config s w id p name args out e f g in
        inr (
          w,
          id,
          p,
          w',
          e,
          g,
          sym (ap (λ o. record_in host config s w o name args out) g)
              ∙ sym (ap (λ o. record_active host config s w o name args out) f)
              ∙ sym (ap (λ o. record_workflow host config s o name args out) e)
              ∙ same,
          recorded,
        )

    active :
        (w : Workflow) (o : Option String)
        → s.workflow ≡ some w
        → w.active_phase ≡ o
        → Cases (record_active host config s w o name args out)
    active w none e f = inl refl
    active w (some id) e f = found w id (phase host config id) e f refl

    go :
        (o : Option Workflow)
        → s.workflow ≡ o
        → Cases (record_workflow host config s o name args out)
    go none e = inl refl
    go (some w) e = active w w.active_phase e refl
