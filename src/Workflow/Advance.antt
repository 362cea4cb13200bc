-- ===== src/Workflow/Advance.antt =====
-- When `advance` of agent-rust/src/engine.rs takes a transition, and which one.
use state_driven_agent.Common.{
  ℕ, String, Bool, true, Option, none, some, List, [], ◌∷◌, ◌≡◌, ◌≢◌, ◌↔◌, ◌⊎◌, refl, sym, ap,
  arith, str_eq, eq_iff, inl, inr, Bool-cases, enumerate_from, All, find, is_empty,
}
use state_driven_agent.Json.Host.{Host}
use state_driven_agent.Config.{Evidence, Edge, Phase, WorkflowConfig, Config}
use state_driven_agent.Session.{Workflow, Transition, Session}
use state_driven_agent.Workflow.{
  key, transition_category, phase, missing, missing_from, is_observed, edge_observed, edge_open,
  started, take_edge, transition_of, advance_by, advance_in, advance_phase, advance_active,
  advance_from, advance,
}

module _ (host : Host) (config : Config) (s : Session) where
  abbrev Observed : String → Type 0
  Observed k = is_observed host config s k ≡ true

  -- The required evidence among the given is observed.
  abbrev Required : String → List (ℕ × Evidence) → Type 0
  Required id = All λ (i, e). e.required ≡ true → Observed (key id "completion" i)

  -- What opens a transition: its kind and the evidence that this asks for.
  pub data Ready (p : Phase) (n : ℕ) (e : Edge) : Type 0 where
    always : e.when ≡ "always" → Ready p n e
    phase_complete :
        e.when ≡ "phase_complete" → Required p.id (enumerate_from 0 p.completion) → Ready p n e
    evidence :
        e.when ≢ "always"
        → e.when ≢ "phase_complete"
        → All
            (λ (i, ev). Observed (key p.id (transition_category n) i))
            (enumerate_from 0 e.evidence)
        → Ready p n e

  missing_from-Required :
      (id : String) (es : List (ℕ × Evidence))
      → (is_empty (missing_from host config s id es) ≡ true) ↔ Required id es
  unfolding missing_from
  missing_from-Required id [] = ((λ _. tt), λ _. refl)
  missing_from-Required id ((i, e) ∷ es) = ground (arith, missing_from-Required id es)

  edge_observed-All :
      (id : String) (n : ℕ) (es : List (ℕ × Evidence))
      → (edge_observed host config s id n es ≡ true)
        ↔ All (λ (i, ev). Observed (key id (transition_category n) i)) es
  unfolding edge_observed
  edge_observed-All id n [] = ((λ _. tt), λ _. refl)
  edge_observed-All id n ((i, e) ∷ es) = ground (arith, edge_observed-All id n es)

  -- A transition is open exactly when its condition holds of the observed evidence: always, or all
  -- required evidence of the phase, or all evidence of the transition.
  pub edge_open_iff :
      (p : Phase) (n : ℕ) (e : Edge) → (edge_open host config s p (n, e) ≡ true) ↔ Ready p n e
  unfolding edge_open missing
  edge_open_iff p n e = (to, from)
    where
      to : edge_open host config s p (n, e) ≡ true → Ready p n e
      to h = elim (Bool-cases (str_eq e.when "always")) [
        | inl a ↦ always ((eq_iff e.when "always").0 a)
        | inr na ↦ elim (Bool-cases (str_eq e.when "phase_complete")) [
          | inl b ↦
              phase_complete ((eq_iff e.when "phase_complete").0 b)
                ((missing_from-Required p.id (enumerate_from 0 p.completion)).0 (rw (na, b) at h))
          | inr nb ↦
              evidence (λ q. cc (na, (eq_iff e.when "always").1 q))
                (λ q. cc (nb, (eq_iff e.when "phase_complete").1 q))
                ((edge_observed-All p.id n (enumerate_from 0 e.evidence)).0 (rw (na, nb) at h))
        ]
      ]

      from : Ready p n e → edge_open host config s p (n, e) ≡ true
      from (always a) = rw ((eq_iff e.when "always").1 a) refl
      from (phase_complete a r) = ground (
        arith,
        eq_iff e.when "always",
        eq_iff e.when "phase_complete",
        (missing_from-Required p.id (enumerate_from 0 p.completion)).1 r,
      )
      from (evidence a b r) = ground (
        arith,
        eq_iff e.when "always",
        eq_iff e.when "phase_complete",
        (edge_observed-All p.id n (enumerate_from 0 e.evidence)).1 r,
      )

-- The transition that is taken: the first one of the active phase that is open.
pub record IsTaken (host : Host) (config : Config) (s s' : Session) (t : Transition) : Type 0 where
  pub before : Workflow
  pub id : String
  pub at : Phase
  pub index : ℕ
  pub edge : Edge
  pub workflow : s.workflow ≡ some before
  pub active : before.active_phase ≡ some id
  pub found : phase host config id ≡ some at
  pub first :
      find (edge_open host config s at) (enumerate_from 0 at.transitions) ≡ some (index, edge)
  pub ready : Ready host config s at index edge
  pub after : s' ≡ record s { workflow = some (take_edge at edge before) }
  pub taken : t ≡ transition_of at edge

pub find_sound : {A : Type 0} (p : A → Bool) (xs : List A) (x : A) → find p xs ≡ some x → p x ≡ true
find_sound p [] x h = cc
find_sound p (y ∷ ys) x h = ground (arith, find_sound p ys x)

module _ (host : Host) (config : Config) (s s' : Session) (t : Transition) (w : Workflow)
    (id : String) (e : s.workflow ≡ some w) (f : w.active_phase ≡ some id) where
  advance_by-IsTaken :
      (p : Phase) (o : Option (ℕ × Edge))
      → phase host config id ≡ some p
      → find (edge_open host config s p) (enumerate_from 0 p.transitions) ≡ o
      → advance_by host config s w p o ≡ (s', some t)
      → IsTaken host config s s' t
  unfolding advance_by
  advance_by-IsTaken p none g q h = cc
  advance_by-IsTaken p (some (n, edge)) g q h = record {
    before = w;
    id = id;
    at = p;
    index = n;
    edge = edge;
    workflow = e;
    active = f;
    found = g;
    first = q;
    ready =
        (edge_open_iff host config s p n edge).0
          (find_sound (edge_open host config s p) (enumerate_from 0 p.transitions) (n, edge) q);
    after = sym (ap (λ x. x.0) h);
    taken = cc;
  }

  advance_in-IsTaken :
      (o : Option Phase)
      → phase host config id ≡ o
      → advance_in host config s w o ≡ (s', some t)
      → IsTaken host config s s' t
  unfolding advance_in
  advance_in-IsTaken none g h = cc
  advance_in-IsTaken (some p) g h =
      advance_by-IsTaken p (find (edge_open host config s p) (enumerate_from 0 p.transitions)) g
        refl h

module _ (host : Host) (config : Config) (s s' : Session) (t : Transition) where
  advance_phase-IsTaken :
      (w : Workflow) (o : Option String)
      → s.workflow ≡ some w
      → w.active_phase ≡ o
      → advance_phase host config s w o ≡ (s', some t)
      → IsTaken host config s s' t
  unfolding advance_phase
  advance_phase-IsTaken w none e f h = cc
  advance_phase-IsTaken w (some id) e f h =
      advance_in-IsTaken host config s s' t w id e f (phase host config id) refl h

  advance_active-IsTaken :
      (o : Option Workflow)
      → s.workflow ≡ o
      → advance_active host config s o ≡ (s', some t)
      → IsTaken host config s s' t
  unfolding advance_active
  advance_active-IsTaken none e h = cc
  advance_active-IsTaken (some w) e h = advance_phase-IsTaken w w.active_phase e refl h

-- If advance reports a transition, the configuration has a workflow, and the transition is the first
-- of the active phase that is open: its condition holds of the observed evidence, and the session
-- (with its workflow started) changes by taking it and in nothing else.
pub advance-IsTaken :
    (host : Host) (config : Config) (s s' : Session) (t : Transition)
    → advance host config s ≡ (s', some t)
    → (c : WorkflowConfig) × (config.workflow ≡ some c)
      × IsTaken host config (started host config s c) s' t
unfolding advance
advance-IsTaken host config s s' t h = go config.workflow refl h
  where
    go :
        (o : Option WorkflowConfig)
        → config.workflow ≡ o
        → advance_from host config s o ≡ (s', some t)
        → (c : WorkflowConfig) × (config.workflow ≡ some c)
          × IsTaken host config (started host config s c) s' t
    go none e h = cc
    go (some c) e h = (
      c,
      e,
      advance_active-IsTaken host config (started host config s c) s' t
          (started host config s c).workflow refl h,
    )

-- If advance reports no transition, the session is as it was, but for a workflow that it started.
pub advance-none :
    (host : Host) (config : Config) (s s' : Session)
    → advance host config s ≡ (s', none)
    → (s' ≡ s)
      ⊎ ((c : WorkflowConfig) × (config.workflow ≡ some c) × (s' ≡ started host config s c))
unfolding advance
advance-none host config s s' h = go config.workflow refl h
  where
    by :
        (z : Session) (w : Workflow) (p : Phase) (o : Option (ℕ × Edge))
        → advance_by host config z w p o ≡ (s', none)
        → s' ≡ z
    by z w p none h = cc
    by z w p (some (n, e)) h = cc

    inside :
        (z : Session) (w : Workflow) (o : Option Phase)
        → advance_in host config z w o ≡ (s', none)
        → s' ≡ z
    inside z w none h = cc
    inside z w (some p) h =
        by z w p (find (edge_open host config z p) (enumerate_from 0 p.transitions)) h

    at :
        (z : Session) (w : Workflow) (o : Option String)
        → advance_phase host config z w o ≡ (s', none)
        → s' ≡ z
    at z w none h = cc
    at z w (some id) h = inside z w (phase host config id) h

    active :
        (z : Session) (o : Option Workflow) → advance_active host config z o ≡ (s', none) → s' ≡ z
    active z none h = cc
    active z (some w) h = at z w w.active_phase h

    go :
        (o : Option WorkflowConfig)
        → config.workflow ≡ o
        → advance_from host config s o ≡ (s', none)
        → (s' ≡ s)
          ⊎ ((c : WorkflowConfig) × (config.workflow ≡ some c) × (s' ≡ started host config s c))
    go none e h = inl cc
    go (some c) e h =
        inr (c, e, active (started host config s c) (started host config s c).workflow h)
