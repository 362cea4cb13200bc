-- ===== src/Completion/Accepted.antt =====
-- Which answers agent-rust/src/engine.rs accepts as final.
use state_driven_agent.Common.{
  ℕ, String, Bool, true, false, not, ◌&&◌, Option, none, some, List, [], ◌∷◌, ◌++◌, ◌≡◌, ◌↔◌, refl,
  str_eq, eq_iff, All, is_none, enumerate_from, ok, err, is_some_and, arith,
}
use state_driven_agent.Json.{Value}
use state_driven_agent.Json.Host.{Host}
use state_driven_agent.Strict.{parse_strict_json}
use state_driven_agent.Schema.{validate_arguments_at, Check}
use state_driven_agent.Schema.Laws.{Given, Conforms, validate_value_iff}
use state_driven_agent.Config.{Config}
use state_driven_agent.Session.{Session}
use state_driven_agent.Workflow.{is_complete}
use state_driven_agent.Policy.{result_checks}
use state_driven_agent.Decision.{is_blank}
use state_driven_agent.Completion.{
  check_answer, completion_text, forbidden, is_match, forbidden_pattern, whole_pattern, error_if,
  forbidden_errors, answer_schema, schema_errors, artifact_value, deliverable_error,
  deliverable_errors, completion_errors, problem,
}

module _ {ℓ} {A : Type ℓ} where
  append-nil_iff : (xs ys : List A) → (xs ++ ys ≡ []) ↔ ((xs ≡ []) × (ys ≡ []))
  append-nil_iff [] ys = (λ h. (refl, h), λ (e, h). h)
  append-nil_iff (x ∷ xs) ys = (λ h. cc, λ (e, h). cc)

-- Two parts of the errors are empty where both of their readings hold.
parts_iff :
    {P Q : Type 0} {A : Type 0} (xs ys : List A)
    → ((xs ≡ []) ↔ P)
    → ((ys ≡ []) ↔ Q)
    → (xs ++ ys ≡ []) ↔ (P × Q)
parts_iff xs ys p q = (
  λ h. let (e, f) = (append-nil_iff xs ys).0 h in (p.0 e, q.0 f),
  λ (a, b). (append-nil_iff xs ys).1 (p.1 a, q.1 b),
)

validate_at_iff :
    (host : Host) (schema v : Value) (path : String)
    → (validate_arguments_at host schema v path ≡ ok tt) ↔ Conforms host schema v
unfolding validate_arguments_at
validate_at_iff host schema v path = validate_value_iff host schema v path

module _ (host : Host) (config : Config) where
  error_if_iff : (b : Bool) (e : String) → (error_if host config b e ≡ []) ↔ (b ≡ false)
  error_if_iff true e = (λ h. cc, λ h. cc)
  error_if_iff false e = (λ h. refl, λ h. refl)

  -- The deliverable of a check: its artifact is captured, and the answer includes it.
  abbrev pub IsDelivered : Session → String → ℕ × Value → Type 0
  IsDelivered s answer (i, check) =
      (value : Value) × (artifact_value host config s i ≡ some value)
      × (check_answer host check answer value ≡ true)

  -- An answer that meets every requirement of the configuration, in a session that is ready for it.
  pub record IsFinal (s : Session) (answer : String) : Type 0 where
    pub present : is_blank answer ≡ false
    pub finished : Given config.workflow λ w. is_complete host config s ≡ true
    pub clean :
        All
          (λ p. is_match host config (forbidden_pattern host config p) answer ≡ false)
          (forbidden host config)
    pub exact : Given (completion_text host config "exact") λ exact. answer ≡ exact
    pub presented :
        Given
          (completion_text host config "pattern")
          λ p. is_match host config (whole_pattern host config p) answer ≡ true
    pub structured :
        Given
          (answer_schema host config)
          λ schema. (v : Value) × (parse_strict_json host answer ≡ some v) × Conforms host schema v
    pub delivered : All (IsDelivered s answer) (enumerate_from 0 (result_checks config))

  forbidden_iff :
      (ps : List String) (answer : String)
      → (forbidden_errors host config ps answer ≡ [])
        ↔ All (λ p. is_match host config (forbidden_pattern host config p) answer ≡ false) ps
  unfolding forbidden_errors
  forbidden_iff [] answer = (λ h. tt, λ h. refl)
  forbidden_iff (p ∷ ps) answer =
      parts_iff _ _ (error_if_iff (is_match host config (forbidden_pattern host config p) answer) _)
        (forbidden_iff ps answer)

  exact_iff :
      (o : Option String) (answer e : String)
      → (error_if host config (is_some_and o λ exact. not (str_eq answer exact)) e ≡ [])
        ↔ Given o λ exact. answer ≡ exact
  exact_iff none answer e = (λ h. tt, λ h. refl)
  exact_iff (some x) answer e =
      (λ h. ground (arith, eq_iff answer x), λ h. ground (arith, eq_iff answer x))

  pattern_iff :
      (o : Option String) (answer e : String)
      → (error_if host config
            (is_some_and o λ p. not (is_match host config (whole_pattern host config p) answer))
            e
          ≡ [])
        ↔ Given o λ p. is_match host config (whole_pattern host config p) answer ≡ true
  pattern_iff none answer e = (λ h. tt, λ h. refl)
  pattern_iff (some x) answer e = go (is_match host config (whole_pattern host config x) answer)
    where
      go : (b : Bool) → (error_if host config (not b) e ≡ []) ↔ (b ≡ true)
      go true = (λ h. refl, λ h. refl)
      go false = (λ h. cc, λ h. cc)

  problem_iff : (c : Check) → (problem host config c ≡ []) ↔ (c ≡ ok tt)
  problem_iff (ok u) = (λ h. refl, λ h. refl)
  problem_iff (err e) = (λ h. cc, λ h. cc)

  schema_iff :
      (o : Option Value) (p : Option Value)
      → (schema_errors host config o p ≡ [])
        ↔ Given o λ schema. (v : Value) × (p ≡ some v) × Conforms host schema v
  unfolding schema_errors
  schema_iff none p = (λ h. tt, λ h. refl)
  schema_iff (some schema) none = (λ h. cc, λ (v, e, h). cc)
  schema_iff (some schema) (some v) = (
    λ h. (v, refl, (validate_at_iff host schema v "final_answer").0 ((problem_iff _).0 h)),
    λ (w, e, h).
        let same : v ≡ w = cc in
        (problem_iff _).1 ((validate_at_iff host schema v "final_answer").1 (rw same h)),
  )

  workflow_iff :
      (b : Bool) (e : String)
      → (error_if host config (not (is_none config.workflow) && not b) e ≡ [])
        ↔ Given config.workflow λ w. b ≡ true
  workflow_iff b e = go config.workflow b
    where
      go :
          {A : Type 0} (o : Option A) (b : Bool)
          → (error_if host config (not (is_none o) && not b) e ≡ []) ↔ Given o λ w. b ≡ true
      go none b = (λ h. tt, λ h. refl)
      go (some w) true = (λ h. refl, λ h. refl)
      go (some w) false = (λ h. cc, λ h. cc)

  delivered_iff :
      (check : Value) (answer : String) (o : Option Value)
      → (deliverable_error host config check answer o ≡ [])
        ↔ ((value : Value) × (o ≡ some value) × (check_answer host check answer value ≡ true))
  unfolding deliverable_error
  delivered_iff check answer none = (λ h. cc, λ (v, e, h). cc)
  delivered_iff check answer (some x) = (
    λ h. (x, refl, go _ (check_answer host check answer x) h),
    λ (v, e, h). let same : x ≡ v = cc in rw (same, h) refl,
  )
    where
      go : (e : String) (b : Bool) → error_if host config (not b) e ≡ [] → b ≡ true
      go e true h = refl
      go e false h = cc

  deliverables_iff :
      (s : Session) (answer : String) (checks : List (ℕ × Value))
      → (deliverable_errors host config s answer checks ≡ []) ↔ All (IsDelivered s answer) checks
  unfolding deliverable_errors
  deliverables_iff s answer [] = (λ h. tt, λ h. refl)
  deliverables_iff s answer ((i, check) ∷ checks) =
      parts_iff _ _ (delivered_iff check answer (artifact_value host config s i))
        (deliverables_iff s answer checks)

  -- A final answer has no error exactly if it is not blank, the configured workflow is complete, no
  -- forbidden pattern matches it, it is the exact text and matches the pattern that are configured,
  -- it is strict JSON that conforms to the configured schema, and for each result check an artifact
  -- is captured that the answer includes.
  pub completion_errors_iff :
      (s : Session) (answer : String)
      → (completion_errors host config s answer ≡ []) ↔ IsFinal s answer
  unfolding completion_errors
  completion_errors_iff s answer =
      let parts = parts_iff _ _ (error_if_iff (is_blank answer) _) (
        parts_iff _ _ (workflow_iff (is_complete host config s) _) (
          parts_iff _ _ (forbidden_iff (forbidden host config) answer) (
            parts_iff _ _ (exact_iff (completion_text host config "exact") answer _) (
              parts_iff _ _ (pattern_iff (completion_text host config "pattern") answer _) (
                parts_iff _ _
                  (schema_iff (answer_schema host config) (parse_strict_json host answer))
                  (deliverables_iff s answer (enumerate_from 0 (result_checks config)))))))) in
      (
        λ h.
            let (a, (b, (c, (d, (e, (f, g)))))) = parts.0 h in
            record {
              present = a;
              finished = b;
              clean = c;
              exact = d;
              presented = e;
              structured = f;
              delivered = g;
            },
        λ final. parts.1 (
          final.present,
          (
            final.finished,
            (final.clean, (final.exact, (final.presented, (final.structured, final.delivered)))),
          ),
        ),
      )
