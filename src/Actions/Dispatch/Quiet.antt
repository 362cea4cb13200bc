-- ===== src/Actions/Dispatch/Quiet.antt =====
-- The parts of `dispatch` of agent-rust/src/actions.rs that run no tool.
use state_driven_agent.Common.{
  not, ◌&&◌, str_eq, is_none, is_empty, String, Bool, true, false, Option, none, some, List, [],
  ◌∷◌, ◌≡◌, refl, ◌∙◌, if◌then◌else◌, Result, ok, err,
}
use state_driven_agent.Common.Int.{ℤ, pos, add64}
use state_driven_agent.Json.{Value, index}
use state_driven_agent.Json.Host.{Host}
use state_driven_agent.Config.{Config}
use state_driven_agent.Session.{Session, archive_record}
use state_driven_agent.Session.Kept.{Kept, acknowledge-Kept}
use state_driven_agent.Actions.{
  draw_time, lift, current, Effect, drew_id, drew_time, emitted, queried, invoked, requested, World,
  Env, Action, proceed, ◌>>=◌, audit, checkpoint, text_is,
}
use state_driven_agent.Actions.Dispatch.{
  mode_of, fixture, Call, intend, settle_if, settle_previous, recovered, unknown, verified, verify,
  reconcile, commit_block, settle_result, settle_error, settle_output, settle, recover,
}

abbrev pub latest : List Effect → Option Effect
latest [] = none
latest (e ∷ log) = some e

-- The tools that ran, each with the effect right before it.
abbrev pub invocations : List Effect → List (Option Effect × String × Value)
invocations [] = []
invocations (drew_id ∷ log) = invocations log
invocations (drew_time ∷ log) = invocations log
invocations (emitted event s ∷ log) = invocations log
invocations (queried namespace key ∷ log) = invocations log
invocations (requested url payload ∷ log) = invocations log
invocations (invoked tool args ∷ log) = (latest log, tool, args) ∷ invocations log

-- An action that runs no tool, and that leaves the conversation and the pending calls.
abbrev pub Quiet : {A : Type 0} → Action A → Type 0
Quiet m =
    (w : World) → (invocations (m w).1.log ≡ invocations w.log) × Kept w.session (m w).1.session

pub Quiet-bind :
    {A B : Type 0} (m : Action A) (f : A → Action B)
    → Quiet m
    → ((a : A) → Quiet (f a))
    → Quiet (m >>= f)
unfolding ◌>>=◌
Quiet-bind {A} m f p q w = let (l, k) = go (m w) in (l ∙ (p w).0, k ∙ (p w).1)
  where
    go :
        (r : Result String A × World)
        → (invocations (proceed f r).1.log ≡ invocations r.1.log)
          × Kept r.1.session (proceed f r).1.session
    go (ok a, v) = q a v
    go (err e, v) = (refl, refl)

pub Quiet-if :
    {A : Type 0} (b : Bool) (x y : Action A) → Quiet x → Quiet y → Quiet (if b then x else y)
Quiet-if true x y p q = p
Quiet-if false x y p q = q

module _ (env : Env) where
  pub audit-Quiet : (kind : String) (payload : Value) → Quiet (audit env kind payload)
  unfolding archive_record
  audit-Quiet kind payload =
      Quiet-bind _ _ (λ w. (refl, refl))
        λ id. Quiet-bind _ _ (λ w. (refl, refl)) λ now w. (refl, refl)

  pub checkpoint-Quiet : (event : Value) → Quiet (checkpoint env event)
  checkpoint-Quiet event =
      Quiet-bind _ _
        (Quiet-bind _ _
          (Quiet-bind _ _ (λ w. (refl, refl))
            λ s.
              Quiet-if (str_eq s.run_status "blocked" && is_none s.run_ended_at) _ _
                (Quiet-bind (draw_time env) _ (λ w. (refl, refl)) λ now w. (refl, refl))
                (λ w. (refl, refl)))
          λ _ w. (refl, refl))
        λ receipt.
          Quiet-bind _ _ (λ w. (refl, acknowledge-Kept receipt w.session))
            λ _.
              Quiet-bind _ _ (λ w. (refl, refl))
                λ s. Quiet-if s.needs_reload _ _ (λ w. (refl, refl)) (λ w. (refl, refl))

module _ (host : Host) (env : Env) (config : Config) (call : Call) where
  pub intend-Quiet :
      (namespace : String) (s : Session) → Quiet (intend host env config call namespace s)
  unfolding intend
  intend-Quiet namespace s =
      Quiet-bind _ _ (λ w. (refl, refl))
        λ id.
          Quiet-bind _ _ (λ w. (refl, refl))
            λ key.
              Quiet-bind _ _ (λ w. (refl, refl))
                λ digest.
                  Quiet-bind _ _
                    (Quiet-bind _ _ (Quiet-bind _ _ (λ w. (refl, refl)) λ _. audit-Quiet env _ _)
                      λ _. checkpoint-Quiet env _)
                    λ _ w. (refl, refl)

  pub settle_previous-Quiet :
      (attempts : List Value) → Quiet (settle_previous host env config call attempts)
  unfolding settle_previous
  settle_previous-Quiet [] = λ w. (refl, refl)
  settle_previous-Quiet (a ∷ attempts) =
      Quiet-bind _ _ (one (text_is (index "status" a) "started"))
        λ _. settle_previous-Quiet attempts
    where
      one : (b : Bool) → Quiet (settle_if host env config call b a)
      one true =
          Quiet-bind _ _ (λ w. (refl, refl))
            λ now. Quiet-bind _ _ (λ w. (refl, refl)) λ _. audit-Quiet env _ _
      one false = λ w. (refl, refl)

  recovered-Quiet : (e v : Value) (r : String) → Quiet (recovered host env config call e v r)
  unfolding recovered
  recovered-Quiet e v r =
      Quiet-bind _ _
        (Quiet-bind _ _
          (Quiet-bind _ _ (Quiet-bind _ _ (λ w. (refl, refl)) λ _. audit-Quiet env _ _)
            λ _ w. (refl, refl))
          λ _. checkpoint-Quiet env _)
        λ _ w. (refl, refl)

  unknown-Quiet : (e v : Value) (n : ℤ) → Quiet (unknown host env config call e v n)
  unfolding unknown
  unknown-Quiet e v n =
      Quiet-bind _ _
        (Quiet-bind _ _ (Quiet-bind _ _ (λ w. (refl, refl)) λ _. audit-Quiet env _ _)
          λ _. checkpoint-Quiet env _)
        λ _ w. (refl, refl)

  verified-Quiet :
      (e v : Value) (n : ℤ) (row : Option (String × Value))
      → Quiet (verified host env config call e v n row)
  unfolding verified
  verified-Quiet e v n none = unknown-Quiet e v n
  verified-Quiet e v n (some (fingerprint, result)) =
      Quiet-if (text_is (index "payload_sha256" e) fingerprint) _ _
        (Quiet-bind (lift (env.canonical result)) _ (λ w. (refl, refl)) λ r. recovered-Quiet e v r)
        (unknown-Quiet e v n)

  reconcile-Quiet :
      (namespace : String) (e : Value) (n : ℤ)
      → Quiet (reconcile host env config call namespace e n)
  unfolding reconcile verify
  reconcile-Quiet namespace e n =
      Quiet-if
        (not (text_is (index "status" e) "pending")
          && str_eq (mode_of host env config call e) "reconcile"
          && str_eq call.tool fixture)
        _ _ (Quiet-bind current _ (λ w. (refl, refl)) ask) (λ w. (refl, refl))
    where
      ask : (s : Session) → Quiet (verify host env config call namespace e (add64 n (pos 1)) s)
      ask s =
          Quiet-bind _ _ (λ w. (refl, refl))
            λ id.
              Quiet-bind _ _ (λ w. (refl, refl))
                λ started.
                  Quiet-bind _ _
                    (Quiet-bind _ _
                      (Quiet-bind _ _ (Quiet-bind _ _ (λ w. (refl, refl)) λ _. audit-Quiet env _ _)
                        λ _. checkpoint-Quiet env _)
                      λ _ w. (refl, refl))
                    λ row. Quiet-bind _ _ (λ w. (refl, refl)) λ now. verified-Quiet e _ _ row

  pub recover-Quiet :
      (namespace : String) (e : Value) → Quiet (recover host env config call namespace e)
  unfolding recover
  recover-Quiet namespace e =
      Quiet-bind _ _
        (Quiet-bind _ _ (Quiet-bind _ _ (settle_previous-Quiet _) λ _ w. (refl, refl)) λ s.
          Quiet-if (is_empty s.attempts_pending) _ _ (λ w. (refl, refl)) (checkpoint-Quiet env _))
        λ _. reconcile-Quiet namespace e _

  pub commit_block-Quiet : (e : Value) → Quiet (commit_block host env config call e)
  unfolding commit_block
  commit_block-Quiet e =
      Quiet-bind _ _
        (Quiet-bind _ _ (Quiet-bind _ _ (λ w. (refl, refl)) λ _ w. (refl, refl))
          λ _. audit-Quiet env _ _)
        λ _. checkpoint-Quiet env _

  result-Quiet : (e a : Value) (r : String) → Quiet (settle_result host env config call e a r)
  unfolding settle_result
  result-Quiet e a r =
      Quiet-bind _ _
        (Quiet-bind _ _
          (Quiet-bind _ _
            (Quiet-bind _ _ (Quiet-bind _ _ (λ w. (refl, refl)) λ _. audit-Quiet env _ _)
              λ _ w. (refl, refl))
            λ _. audit-Quiet env _ _)
          λ _. checkpoint-Quiet env _)
        λ _ w. (refl, refl)

  error-Quiet : (e a : Value) (x : String) → Quiet (settle_error host env config call e a x)
  unfolding settle_error
  error-Quiet e a x =
      Quiet-bind _ _
        (Quiet-bind _ _
          (Quiet-bind _ _
            (Quiet-bind _ _ (Quiet-bind _ _ (λ w. (refl, refl)) λ _ w. (refl, refl))
              λ _. audit-Quiet env _ _)
            λ _ w. (refl, refl))
          λ _. checkpoint-Quiet env _)
        λ _ w. (refl, refl)

  pub settle-Quiet :
      (e a : Value) (r : Result String String) → Quiet (settle host env config call e a r)
  unfolding settle settle_output
  settle-Quiet e a (ok r) = Quiet-bind _ _ (λ w. (refl, refl)) λ now. result-Quiet e _ r
  settle-Quiet e a (err x) = Quiet-bind _ _ (λ w. (refl, refl)) λ now. error-Quiet e _ x
