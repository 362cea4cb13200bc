-- ===== src/Completion/Captured.antt =====
-- Where the artifacts of agent-rust/src/engine.rs come from.
use state_driven_agent.Common.{
  ℕ, suc, ◌+◌, String, true, false, Option, none, some, List, [], ◌∷◌, ◌≡◌, ◌⊎◌, inl, inr, refl, ap,
  ◌∙◌, str_eq, eq_iff, enumerate_from, get_elem?, Bool-cases, nat_text, codes, arith, if◌then◌else◌,
}
use state_driven_agent.Common.Texts.Numerals.{nat_text_injective}
use state_driven_agent.Json.{
  Value, null, bool, num, str, arr, obj, Fields, get, lookup, insert, lookup-insert,
}
use state_driven_agent.Json.Host.{Host}
use state_driven_agent.Config.{Config}
use state_driven_agent.Session.{Session}
use state_driven_agent.Workflow.{is_failure}
use state_driven_agent.Policy.{result_checks}
use state_driven_agent.Actions.{set}
use state_driven_agent.Completion.{
  extract_result, captures_call, captured, capture_from, capture_artifacts, artifact_value,
  artifact_entry, objective,
}

module _ (host : Host) (config : Config) where
  -- The check at an index wants the call, and its output shows the value.
  pub record IsCaptured (name : String) (args : Fields) (output : String) (i : ℕ) (v : Value)
      : Type 0 where
    pub check : Value
    pub configured : get_elem? (result_checks config) i ≡ some check
    pub wanted : captures_call host config check name args output ≡ true
    pub extracted : extract_result host check output ≡ some v

  get-objective : (k : String) (v : Value) → get k (objective host config v) ≡ get k v
  unfolding get
  get-objective k null = refl
  get-objective k (bool b) = refl
  get-objective k (num n) = refl
  get-objective k (str s) = refl
  get-objective k (arr vs) = refl
  get-objective k (obj m) = refl

  get-set-objective :
      (k j : String) (x v : Value)
      → get j (set k x (objective host config v)) ≡ (if str_eq k j then some x else get j v)
  unfolding get lookup insert set
  get-set-objective k j x (obj m) = lookup-insert k j x m
  get-set-objective k j x null = ground (arith, eq_iff k j)
  get-set-objective k j x (bool b) = refl
  get-set-objective k j x (num n) = refl
  get-set-objective k j x (str s) = refl
  get-set-objective k j x (arr vs) = refl

  same_index : (k i : ℕ) → str_eq (nat_text k) (nat_text i) ≡ true → k ≡ i
  same_index k i h = nat_text_injective k i (ap codes ((eq_iff (nat_text k) (nat_text i)).0 h))

  value-captured :
      (s : Session) (k i : ℕ) (x : Value) (id name : String) (args : Fields) (v : Value)
      → artifact_value host config (captured host config s k (some x) id name args) i ≡ some v
      → (artifact_value host config s i ≡ some v) ⊎ ((k ≡ i) × (x ≡ v))
  unfolding captured get lookup
  value-captured s k i x id name args v h =
      let e =
        get-set-objective (nat_text k) (nat_text i) (artifact_entry host config s id name args x)
          s.completion_artifacts in
      elim (Bool-cases (str_eq (nat_text k) (nat_text i))) [
        | inl same ↦ inr (same_index k i same, cc (rw (e, same) at h))
        | inr other ↦ inl (rw (e, other) at h)
      ]

  -- As `IsCaptured`, for the checks from an index on.
  record IsFound (name : String) (args : Fields) (output : String) (k i : ℕ) (v : Value)
      (checks : List Value) : Type 0 where
    offset : ℕ
    check : Value
    at_offset : i ≡ k + offset
    configured : get_elem? checks offset ≡ some check
    wanted : captures_call host config check name args output ≡ true
    extracted : extract_result host check output ≡ some v

  IsFound-later :
      (name : String) (args : Fields) (output : String) (k i : ℕ) (v c : Value) (cs : List Value)
      → IsFound name args output (suc k) i v cs
      → IsFound name args output k i v (c ∷ cs)
  IsFound-later name args output k i v c cs f = record {
    offset = suc f.offset;
    check = f.check;
    at_offset = let e = f.at_offset in omega arith;
    configured = f.configured;
    wanted = f.wanted;
    extracted = f.extracted;
  }

  captured_by :
      (s : Session) (id name : String) (args : Fields) (output : String) (k i : ℕ) (v c : Value)
      (cs : List Value)
      → artifact_value host config
          (if captures_call host config c name args output
            then captured host config s k (extract_result host c output) id name args
            else s)
          i
        ≡ some v
      → (artifact_value host config s i ≡ some v) ⊎ IsFound name args output k i v (c ∷ cs)
  unfolding captured
  captured_by s id name args output k i v c cs h =
      elim (Bool-cases (captures_call host config c name args output)) [
        | inr other ↦ inl (rw other at h)
        | inl wanted ↦ go (extract_result host c output) refl wanted (rw wanted at h)
      ]
    where
      go :
          (o : Option Value)
          → extract_result host c output ≡ o
          → captures_call host config c name args output ≡ true
          → artifact_value host config (captured host config s k o id name args) i ≡ some v
          → (artifact_value host config s i ≡ some v) ⊎ IsFound name args output k i v (c ∷ cs)
      go none e wanted g = inl g
      go (some x) e wanted g = elim (value-captured s k i x id name args v g) [
        | inl old ↦ inl old
        | inr (here, same) ↦ inr record {
          offset = 0;
          check = c;
          at_offset = omega arith;
          configured = refl;
          wanted = wanted;
          extracted = e ∙ ap some same;
        }
      ]

  value-capture_from :
      (cs : List Value) (k : ℕ) (s : Session) (id name : String) (args : Fields) (output : String)
      (i : ℕ) (v : Value)
      → artifact_value host config
          (capture_from host config (enumerate_from k cs) s id name args output)
          i
        ≡ some v
      → (artifact_value host config s i ≡ some v) ⊎ IsFound name args output k i v cs
  unfolding capture_from
  value-capture_from [] k s id name args output i v h = inl h
  value-capture_from (c ∷ cs) k s id name args output i v h =
      elim (value-capture_from cs (suc k) _ id name args output i v h) [
        | inr later ↦ inr (IsFound-later name args output k i v c cs later)
        | inl before ↦ captured_by s id name args output k i v c cs before
      ]

  -- A value that is an artifact behind a tool result was one before, or the result is not a failure
  -- and the configured check of this index wants the call and its result, from which the value is
  -- extracted.
  pub capture_artifacts-IsCaptured :
      (s : Session) (id name : String) (args : Fields) (output : String) (i : ℕ) (v : Value)
      → artifact_value host config (capture_artifacts host config s id name args output) i ≡ some v
      → (artifact_value host config s i ≡ some v)
        ⊎ ((is_failure output ≡ false) × IsCaptured name args output i v)
  unfolding capture_artifacts
  capture_artifacts-IsCaptured s id name args output i v h = elim (Bool-cases (is_failure output)) [
    | inl failed ↦ inl (rw failed at h)
    | inr fine ↦
        elim (value-capture_from (result_checks config) 0 s id name args output i v
          (rw fine at h)) [
            | inl old ↦ inl old
            | inr f ↦ inr (
              fine,
              record {
                check = f.check;
                configured =
                    let e : i ≡ f.offset = omega (arith, f.at_offset) in
                    ap (get_elem? (result_checks config)) e ∙ f.configured;
                wanted = f.wanted;
                extracted = f.extracted;
              },
            )
          ]
  ]
