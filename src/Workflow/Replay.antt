-- ===== src/Workflow/Replay.antt =====
-- Any sequence of executed results and advances, `record` and `advance` of agent-rust/src/engine.rs: its
-- transitions and its observed keys.
use state_driven_agent.Common.{
  String, Bool, true, false, Option, none, some, List, [], ◌∷◌, ◌++◌, ◌≡◌, ◌⊎◌, refl, sym, ap, ◌∙◌,
  arith, str_eq, eq_iff, contains_text, if◌then◌else◌, inl, inr, Bool-cases, any, find,
}
use state_driven_agent.Json.{Fields, ◌and_then◌}
use state_driven_agent.Json.Host.{Host}
use state_driven_agent.Config.{Phase, WorkflowConfig, Config}
use state_driven_agent.Session.{Workflow, Transition, Session}
use state_driven_agent.Workflow.{
  phase, phase_slots, record_evidence, started, started_workflow, transition_of, advance,
}
use state_driven_agent.Workflow.Observed.{shows, record_evidence_cases}
use state_driven_agent.Workflow.Advance.{find_sound, IsTaken, advance-IsTaken, advance-none}

-- What happens to a workflow: a tool result is recorded, or the engine tries to advance.
pub data Event : Type 0 where
  result : String → Fields → String → Event
  step : Event

unfoldable pub apply_event : Host → Config → Session → Event → Session
apply_event host config s (result name args out) = record_evidence host config s name args out
apply_event host config s step = (advance host config s).0

unfoldable pub replay : Host → Config → Session → List Event → Session
unfolding apply_event
replay host config s [] = s
replay host config s (e ∷ es) = replay host config (apply_event host config s e) es

-- A path from the phase `to` along transitions: each starts where the one before it ended, none
-- follows "complete", and it leads to the active phase, or to none behind "complete".
abbrev pub Onward : String → List Transition → Option String → Type 0
Onward to [] active = active ≡ (if str_eq to "complete" then none else some to)
Onward to (t ∷ ts) active =
    (str_eq to "complete" ≡ false) × (t.from_phase ≡ to) × Onward t.to_phase ts active

-- The same from the entry phase, which is active before any transition.
abbrev pub Walk : String → List Transition → Option String → Type 0
Walk entry [] active = active ≡ some entry
Walk entry (t ∷ ts) active = (t.from_phase ≡ entry) × Onward t.to_phase ts active

abbrev pub Traced : String → Option Workflow → Type 0
Traced entry none = Unit {0}
Traced entry (some w) = Walk entry w.transitions w.active_phase

abbrev target : Transition → Option String
target t = if str_eq t.to_phase "complete" then none else some t.to_phase

Onward-concat :
    (to id : String) (ts : List Transition) (t : Transition)
    → Onward to ts (some id)
    → t.from_phase ≡ id
    → Onward to (ts ++ t ∷ []) (target t)
Onward-concat to id [] t h e = elim (Bool-cases (str_eq to "complete")) [
  | inl done ↦ cc (rw done at h)
  | inr more ↦ (more, ground arith, refl)
]
Onward-concat to id (x ∷ ts) t h e = (h.0, h.1, Onward-concat x.to_phase id ts t h.2 e)

Walk-concat :
    (entry id : String) (ts : List Transition) (t : Transition)
    → Walk entry ts (some id)
    → t.from_phase ≡ id
    → Walk entry (ts ++ t ∷ []) (target t)
Walk-concat entry id [] t h e = (ground arith, refl)
Walk-concat entry id (x ∷ ts) t h e = (h.0, Onward-concat x.to_phase id ts t h.1 e)

phase_id :
    (host : Host) (config : Config) (id : String) (p : Phase)
    → phase host config id ≡ some p
    → p.id ≡ id
unfolding phase
phase_id host config id p h = go config.workflow h
  where
    go :
        (o : Option WorkflowConfig)
        → (o and_then λ w. find (λ x. str_eq x.id id) w.phases) ≡ some p
        → p.id ≡ id
    go none h = cc
    go (some w) h = (eq_iff p.id id).0 (find_sound (λ x. str_eq x.id id) w.phases p h)

module _ (host : Host) (config : Config) (c : WorkflowConfig)
    (configured : config.workflow ≡ some c) where
  record-Traced :
      (s : Session) (name : String) (args : Fields) (out : String)
      → Traced c.entry_phase s.workflow
      → Traced c.entry_phase (record_evidence host config s name args out).workflow
  record-Traced s name args out h = elim (record_evidence_cases host config s name args out) [
    | inl same ↦ rw same h
    | inr (w, id, p, w', e, g, after, recorded) ↦
        rw (after, recorded.transitions, recorded.active) (rw e at h)
  ]

  taken-Traced :
      (s s' : Session) (t : Transition)
      → Traced c.entry_phase s.workflow
      → IsTaken host config s s' t
      → Traced c.entry_phase s'.workflow
  taken-Traced s s' t h k =
      let walk : Walk c.entry_phase k.before.transitions (some k.id) =
        rw (k.workflow, k.active) at h in
      rw (k.after) (
        Walk-concat c.entry_phase k.id k.before.transitions (transition_of k.at k.edge) walk
          (phase_id host config k.id k.at k.found))

  started-Traced :
      (o : Option Workflow) → Traced c.entry_phase o → Traced c.entry_phase (started_workflow c o)
  started-Traced none h = refl
  started-Traced (some w) h = h

  config_is : (d : WorkflowConfig) → config.workflow ≡ some d → c ≡ d
  config_is d e = cc

  advance-Traced :
      (s : Session)
      → Traced c.entry_phase s.workflow
      → Traced c.entry_phase (advance host config s).0.workflow
  unfolding started
  advance-Traced s h = go (advance host config s) refl
    where
      go :
          (r : Session × Option Transition)
          → advance host config s ≡ r
          → Traced c.entry_phase r.0.workflow
      go (s', none) e = elim (advance-none host config s s' e) [
        | inl same ↦ rw same h
        | inr (d, f, same) ↦ rw (same, ← config_is d f) (started-Traced s.workflow h)
      ]
      go (s', some t) e =
          let (d, f, taken) = advance-IsTaken host config s s' t e in
          taken-Traced (started host config s d) s' t
            (rw (← config_is d f) (started-Traced s.workflow h)) taken

  -- Whatever tool results are recorded and however often the engine advances, from a session whose
  -- transitions form one path of phases the transitions do so again: the path begins at the entry
  -- phase, each transition starts where the one before it ended, none follows "complete", and it
  -- leads to the active phase, which is none exactly behind "complete".
  pub replay-Traced :
      (s : Session) (es : List Event)
      → Traced c.entry_phase s.workflow
      → Traced c.entry_phase (replay host config s es).workflow
  unfolding replay
  replay-Traced s [] h = h
  replay-Traced s (result name args out ∷ es) h =
      replay-Traced (record_evidence host config s name args out) es
        (record-Traced s name args out h)
  replay-Traced s (step ∷ es) h = replay-Traced (advance host config s).0 es (advance-Traced s h)

-- Some recorded result shows evidence with the key `k` in a phase of the configuration.
abbrev pub Shown : Host → Config → String → List Event → Type 0
Shown host config k [] = ⊥
Shown host config k (result name args out ∷ es) =
    ((id : String) × (p : Phase) × (phase host config id ≡ some p)
      × (any (shows host p.id name args out k) (phase_slots p) ≡ true))
    ⊎ Shown host config k es
Shown host config k (step ∷ es) = Shown host config k es

abbrev pub observed : Option Workflow → String → Bool
observed none k = false
observed (some w) k = contains_text w.observed_evidence k

module _ (host : Host) (config : Config) where
  advance-observed :
      (s : Session) (k : String)
      → observed (advance host config s).0.workflow k ≡ observed s.workflow k
  unfolding started
  advance-observed s k = go (advance host config s) refl
    where
      start :
          (d : WorkflowConfig) (o : Option Workflow)
          → observed (started_workflow d o) k ≡ observed o k
      start d none = refl
      start d (some w) = refl

      go :
          (r : Session × Option Transition)
          → advance host config s ≡ r
          → observed r.0.workflow k ≡ observed s.workflow k
      go (s', none) e = elim (advance-none host config s s' e) [
        | inl same ↦ rw same
        | inr (d, f, same) ↦ rw same (start d s.workflow)
      ]
      go (s', some t) e =
          let (d, f, taken) = advance-IsTaken host config s s' t e in
          rw (taken.after) (sym (ap (λ o. observed o k) taken.workflow) ∙ start d s.workflow)

  replay-Shown :
      (s : Session) (es : List Event) (k : String)
      → observed (replay host config s es).workflow k ≡ true
      → (observed s.workflow k ≡ true) ⊎ Shown host config k es
  unfolding replay
  replay-Shown s [] k h = inl h
  replay-Shown s (result name args out ∷ es) k h =
      elim (replay-Shown (record_evidence host config s name args out) es k h) [
        | inr later ↦ inr (inr later)
        | inl now ↦ elim (record_evidence_cases host config s name args out) [
          | inl same ↦ inl (rw same at now)
          | inr (w, id, p, w', e, g, after, recorded) ↦
              elim (Bool-cases (contains_text w.observed_evidence k)) [
                | inl old ↦ inl (rw e old)
                | inr new ↦ inr (inl (id, p, g, ground (arith, recorded.keys k)))
              ]
        ]
      ]
  replay-Shown s (step ∷ es) k h = elim (replay-Shown (advance host config s).0 es k h) [
    | inl now ↦ inl (sym (advance-observed s k) ∙ now)
    | inr later ↦ inr later
  ]

  replay_keeps :
      (s : Session) (es : List Event) (k : String)
      → observed s.workflow k ≡ true
      → observed (replay host config s es).workflow k ≡ true
  unfolding replay
  replay_keeps s [] k h = h
  replay_keeps s (result name args out ∷ es) k h =
      replay_keeps (record_evidence host config s name args out) es k
        (elim (record_evidence_cases host config s name args out) [
          | inl same ↦ rw same h
          | inr (w, id, p, w', e, g, after, recorded) ↦
              let old : contains_text w.observed_evidence k ≡ true = rw e at h in
              rw (after, recorded.keys k, old)
        ])
  replay_keeps s (step ∷ es) k h =
      replay_keeps (advance host config s).0 es k (advance-observed s k ∙ h)

  -- Behind any sequence of recorded results and advances, an evidence key is observed only if it was
  -- observed before or a recorded result shows it in a phase of the configuration; and a key that
  -- was observed before still is.
  pub replay-observed :
      (s : Session) (es : List Event) (k : String)
      → (observed (replay host config s es).workflow k ≡ true
          → (observed s.workflow k ≡ true) ⊎ Shown host config k es)
        × (observed s.workflow k ≡ true → observed (replay host config s es).workflow k ≡ true)
  replay-observed s es k = (replay-Shown s es k, replay_keeps s es k)
