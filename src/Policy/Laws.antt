-- ===== src/Policy/Laws.antt =====
-- Which tool calls are admitted, as an independent description of `action_rejection`.
use state_driven_agent.Common.{
  ℕ, String, Bool, true, false, Option, none, some, List, [], ◌∷◌, ◌≡◌, ◌≢◌, ◌↔◌, refl, ap, subst,
  ◌∙◌, arith, str_eq, is_some_and, is_none, or_else, inl, inr, Bool-cases, Option-cases, All,
}
use state_driven_agent.Json.{Value, Fields, get, get_str, get_array, lookup, ◌and_then◌}
use state_driven_agent.Json.Host.{Host}
use state_driven_agent.Match.{typed_equal, value_at_path}
use state_driven_agent.Config.{Phase, WorkflowConfig, Config}
use state_driven_agent.Session.{Session}
use state_driven_agent.Workflow.{phase, is_complete, active_phase}
use state_driven_agent.Policy.{
  tools_disabled, bindings, artifact_for_label, value_rejection, artifact_rejection,
  binding_rejection, first_rejection, binding_error, allows, allowed_by, action_rejection,
}

module _ (host : Host) (config : Config) (s : Session) (name : String) (args : Fields) where
  -- A binding of the configuration is met: the result that it names was executed, it has a value at
  -- the binding's path, and the argument, where the call gives it, equals that value.
  pub record IsBound (binding : Value) : Type 0 where
    pub at : ℕ
    pub artifact : Value
    pub expected : Value
    pub obtained :
        artifact_for_label host config s (or_else (get_str "source_label" binding) "")
        ≡ some (at, artifact)
    pub found :
        (get "value" artifact and_then λ v. value_at_path v (or_else (get_array "path" binding) []))
        ≡ some expected
    pub equal :
        (actual : Value)
        → lookup (or_else (get_str "argument" binding) "") args ≡ some actual
        → typed_equal host actual expected ≡ true

  value_rejection-none :
      (argument label : String) (o : Option Value)
      → value_rejection host config argument label args o ≡ none
      → (expected : Value) × (o ≡ some expected)
        × ((actual : Value)
            → lookup argument args ≡ some actual
            → typed_equal host actual expected ≡ true)
  unfolding value_rejection
  value_rejection-none argument label none h = cc
  value_rejection-none argument label (some expected) h =
      (expected, refl, go (lookup argument args) refl)
    where
      go :
          (o : Option Value)
          → lookup argument args ≡ o
          → (actual : Value) → o ≡ some actual
          → typed_equal host actual expected ≡ true
      go none e actual q = cc
      go (some v) e actual q = ground arith

  artifact_rejection-none :
      (argument label : String) (path : List Value) (o : Option (ℕ × Value))
      → artifact_rejection host config name argument label path args o ≡ none
      → (at : ℕ) × (artifact expected : Value) × (o ≡ some (at, artifact))
        × ((get "value" artifact and_then λ v. value_at_path v path) ≡ some expected)
        × ((actual : Value)
            → lookup argument args ≡ some actual
            → typed_equal host actual expected ≡ true)
  unfolding artifact_rejection
  artifact_rejection-none argument label path none h = cc
  artifact_rejection-none argument label path (some (at, artifact)) h =
      let (expected, found, equal) =
        value_rejection-none argument label
          (get "value" artifact and_then λ v. value_at_path v path) h in
      (at, artifact, expected, refl, found, equal)

  binding_rejection-IsBound :
      (binding : Value) → binding_rejection host config s name args binding ≡ none → IsBound binding
  unfolding binding_rejection
  binding_rejection-IsBound binding h =
      let (at, artifact, expected, obtained, found, equal) =
        artifact_rejection-none (or_else (get_str "argument" binding) "")
          (or_else (get_str "source_label" binding) "") (or_else (get_array "path" binding) [])
          (artifact_for_label host config s (or_else (get_str "source_label" binding) "")) h in
      record {
        at = at;
        artifact = artifact;
        expected = expected;
        obtained = obtained;
        found = found;
        equal = equal;
      }

  -- Whether a binding is one of the called tool's.
  abbrev pub is_for : Value → Bool
  is_for binding = is_some_and (get_str "tool" binding) λ t. str_eq t name

  first_rejection-All :
      (bs : List Value)
      → first_rejection host config s name args bs ≡ none
      → All (λ b. is_for b ≡ true → IsBound b) bs
  unfolding first_rejection
  first_rejection-All [] h = tt
  first_rejection-All (b ∷ bs) h = elim (Bool-cases (is_for b)) [
    | inr other ↦ ((λ e. cc (other, e)), first_rejection-All bs (rw other at h))
    | inl mine ↦ elim (Option-cases (binding_rejection host config s name args b)) [
      | inl fine ↦
          ((λ e. binding_rejection-IsBound b fine), first_rejection-All bs (rw (mine, fine) at h))
      | inr (reason, bad) ↦ cc (rw (mine, bad) at h)
    ]
  ]

  value_rejection_of :
      (argument label : String) (expected : Value)
      → ((actual : Value)
          → lookup argument args ≡ some actual
          → typed_equal host actual expected ≡ true)
      → value_rejection host config argument label args (some expected) ≡ none
  unfolding value_rejection
  value_rejection_of argument label expected f = go (lookup argument args) refl
    where
      go :
          (o : Option Value)
          → lookup argument args ≡ o
          → value_rejection host config argument label args (some expected) ≡ none
      go none e = ground arith
      go (some v) e = ground (arith, f v e)

  binding_rejection_of :
      (binding : Value) → IsBound binding → binding_rejection host config s name args binding ≡ none
  unfolding binding_rejection artifact_rejection
  binding_rejection_of binding b =
      ap
        (artifact_rejection host config name (or_else (get_str "argument" binding) "")
          (or_else (get_str "source_label" binding) "") (or_else (get_array "path" binding) [])
          args)
        b.obtained
      ∙ ap
          (value_rejection host config (or_else (get_str "argument" binding) "")
            (or_else (get_str "source_label" binding) "") args)
          b.found
      ∙ value_rejection_of (or_else (get_str "argument" binding) "")
          (or_else (get_str "source_label" binding) "") b.expected b.equal

  first_rejection_of :
      (bs : List Value)
      → All (λ b. is_for b ≡ true → IsBound b) bs
      → first_rejection host config s name args bs ≡ none
  unfolding first_rejection
  first_rejection_of [] h = refl
  first_rejection_of (b ∷ bs) h = elim (Bool-cases (is_for b)) [
    | inl mine ↦ rw (mine, binding_rejection_of b (h.0 mine)) (first_rejection_of bs h.1)
    | inr other ↦ rw other (first_rejection_of bs h.1)
  ]

  -- Whether the phase names the tool; outside a workflow every tool is permitted.
  abbrev pub Permits : Option String → Type 0
  Permits none = config.workflow ≡ none
  Permits (some id) = (p : Phase) × (phase host config id ≡ some p) × (allows config p name ≡ true)

  allowed_by_iff :
      (phase_id : Option String) → (allowed_by host config phase_id name ≡ true) ↔ Permits phase_id
  unfolding allowed_by
  allowed_by_iff none = go config.workflow
    where
      go : (o : Option WorkflowConfig) → (is_none o ≡ true) ↔ (o ≡ none)
      go none = ((λ _. refl), λ _. refl)
      go (some c) = (cc, cc)
  allowed_by_iff (some id) = go (phase host config id)
    where
      go :
          (o : Option Phase)
          → (is_some_and o (λ p. allows config p name) ≡ true)
            ↔ ((p : Phase) × (o ≡ some p) × (allows config p name ≡ true))
      go none = ((λ h. cc), λ h. absurd (cc h.1))
      go (some p) = ((λ h. (p, refl, h)), λ (q, e, h). ground arith)

  -- What an admitted call meets.
  pub record IsAdmitted (phase_id invalid : Option String) : Type 0 where
    pub parsed : invalid ≡ none
    pub enabled : tools_disabled config ≡ false
    pub permitted : Permits phase_id
    pub bound : All (λ b. is_for b ≡ true → IsBound b) (bindings config)

  -- A proposed tool call is not rejected exactly if the parser had no complaint, tools are enabled,
  -- the phase names the tool (or there is no workflow), and each argument that the configuration
  -- binds to an earlier result of the called tool is met by that result.
  pub action_rejection_iff :
      (phase_id invalid : Option String)
      → (action_rejection host config s phase_id name args invalid ≡ none)
        ↔ IsAdmitted phase_id invalid
  unfolding action_rejection binding_error
  action_rejection_iff phase_id invalid = (to invalid, from invalid)
    where
      to :
          (o : Option String)
          → action_rejection host config s phase_id name args o ≡ none
          → IsAdmitted phase_id o
      to (some error) h = cc
      to none h = elim (Bool-cases (tools_disabled config)) [
        | inl off ↦ cc (rw off at h)
        | inr on ↦ elim (Bool-cases (allowed_by host config phase_id name)) [
          | inr out ↦ cc (rw (on, out) at h)
          | inl fine ↦ record {
            parsed = refl;
            enabled = on;
            permitted = (allowed_by_iff phase_id).0 fine;
            bound = first_rejection-All (bindings config) (rw (on, fine) at h);
          }
        ]
      ]

      from :
          (o : Option String)
          → IsAdmitted phase_id o
          → action_rejection host config s phase_id name args o ≡ none
      from (some error) a = cc a.parsed
      from none a =
          rw (a.enabled, (allowed_by_iff phase_id).1 a.permitted)
            (first_rejection_of (bindings config) a.bound)

-- Once the configured workflow is complete, every call that is judged in the active phase, which is
-- none, is rejected.
pub complete_rejects :
    (host : Host) (config : Config) (s : Session) (c : WorkflowConfig) (name : String)
    (args : Fields) (invalid : Option String)
    → config.workflow ≡ some c
    → is_complete host config s ≡ true
    → action_rejection host config s (active_phase s) name args invalid ≢ none
unfolding is_complete
complete_rejects host config s c name args invalid e done h =
    let a = (action_rejection_iff host config s name args (active_phase s) invalid).0 h in
    let idle : active_phase s ≡ none = ground arith in
    let permitted : config.workflow ≡ none =
      subst (Permits host config s name args) idle a.permitted in
    cc
