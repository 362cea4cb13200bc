-- ===== src/Engine/Answer/Goes.antt =====
-- What a round of agent-rust/src/engine.rs does with a decision lets the loop go on, or is an error, and counts
-- no step.
use state_driven_agent.Common.{
  String, Bool, true, false, Option, none, some, List, [], ◌∷◌, ◌≡◌, refl, ◌∙◌, is_some_and, Result,
  ok, err, if◌then◌else◌, contains_text,
}
use state_driven_agent.Common.Int.{ℤ}
use state_driven_agent.Json.{Value, index, as_str}
use state_driven_agent.Json.Host.{Host}
use state_driven_agent.Config.{Config}
use state_driven_agent.Session.{Session}
use state_driven_agent.Workflow.{is_complete}
use state_driven_agent.Progress.Steady.{
  steps, checkpoint-Leaves, append-Leaves, observe_progress-Leaves,
}
use state_driven_agent.Actions.{Effect, World, Env, Action, current, return, ◌>>=◌, text_is}
use state_driven_agent.Actions.Frame.{Leaves, Leaves-bind, Leaves-if}
use state_driven_agent.Actions.Ensures.{Ensures, Via, Ensures-bind, Ensures-Leaves, Ensures-from}
use state_driven_agent.Engine.Settle.{settle_pending}
use state_driven_agent.Engine.Settle.Ends.{settle_pending-ends}
use state_driven_agent.Engine.Settle.Steady.{
  settle_pending-Leaves, count_invalid-Leaves, report_limit-Leaves,
}
use state_driven_agent.Engine.Parts.{Parts, calls_in}
use state_driven_agent.Engine.Answer.{
  observed, settle_and_observe, reject_invalid, reject_answer, accept_answer, judged, judge_answer,
  renewed, reserved, schedule, act,
}

-- The loop goes on, or there is an error, and the steps are these.
abbrev pub GoesOn : ℤ → Result String (Option Bool) → Session → Type 0
GoesOn x (ok none) s = ⊥
GoesOn x (ok (some false)) s = ⊥
GoesOn x (ok (some true)) s = steps s ≡ x
GoesOn x (err e) s = steps s ≡ x

-- An action that goes on, from this number of steps.
abbrev pub Goes : ℤ → Action (Option Bool) → Type 0
Goes x m = Ensures (λ s. steps s ≡ x) (GoesOn x) m

pub then-Goes :
    {A : Type 0} (x : ℤ) (m : Action A) (f : A → Action (Option Bool))
    → Leaves steps m
    → ((a : A) → Goes x (f a))
    → Goes x (m >>= f)
then-Goes x m f p q = Ensures-Leaves steps x (GoesOn x) m f (λ e s h. h) p q

module _ (host : Host) (env : Env) (config : Config) (parts : Parts) (x : ℤ) where
  abbrev Settled : Option (Unit {0}) → Session → Type 0
  Settled o s = (o ≡ some tt) × (steps s ≡ x)

  settle_pending-Ensures :
      Ensures (λ s. steps s ≡ x) (Via Settled (GoesOn x)) (settle_pending host env config)
  settle_pending-Ensures = record {
    ensured = λ w h.
        go w (settle_pending host env config w) refl
          ((settle_pending-Leaves env host config).leaves w ∙ h);
  }
    where
      go :
          (w : World) (r : Result String (Option (Unit {0})) × World)
          → settle_pending host env config w ≡ r
          → steps r.1.session ≡ x
          → Via Settled (GoesOn x) r.0 r.1.session
      go w (ok o, v) e h = ((settle_pending-ends host env config w v o e).0, h)
      go w (err y, v) e h = h

  observed-Ensures :
      (before : String) (o : Option (Unit {0}))
      → Ensures (Settled o) (GoesOn x) (observed host env config parts before o)
  observed-Ensures before none = record { ensured = λ w h. absurd (cc (h.0)) }
  observed-Ensures before (some u) =
      Ensures-from (Settled (some u)) (λ s. steps s ≡ x) (GoesOn x) _ (λ s h. h.1)
        (then-Goes x _ _ (observe_progress-Leaves env host config before)
          λ _. record { ensured = λ w h. h })

  pub settle_and_observe-Goes :
      (before : String) → Goes x (settle_and_observe host env config parts before)
  settle_and_observe-Goes before =
      Ensures-bind (λ s. steps s ≡ x) Settled (GoesOn x) _ _ settle_pending-Ensures
        (observed-Ensures before)

  reject_invalid-Goes :
      (before : String) (d : Value) → Goes x (reject_invalid host env config parts before d)
  unfolding reject_invalid
  reject_invalid-Goes before d = then-Goes x _ _ (count_invalid-Leaves env host config) λ reached.
      then-Goes x _ _
        (Leaves-bind steps _ _
          (Leaves-bind steps _ _
            (Leaves-bind steps _ _ (append-Leaves env _) λ _.
              Leaves-bind steps current _ (record { leaves = λ w. refl })
                λ s. checkpoint-Leaves env _)
            λ _. report_limit-Leaves env host config reached)
          λ _. observe_progress-Leaves env host config before)
        λ _. record { ensured = λ w h. h }

  reject_answer-Goes :
      (before answer : String) (errors : List String)
      → Goes x (reject_answer host env config parts before answer errors)
  unfolding reject_answer
  reject_answer-Goes before answer errors =
      then-Goes x current _ (record { leaves = λ w. refl })
        λ s.
          then-Goes x _ _
            (Leaves-bind steps _ _
              (Leaves-bind steps _ _ (append-Leaves env _) λ _.
                Leaves-bind steps current _ (record { leaves = λ w. refl })
                  λ t. Leaves-bind steps _ _ (append-Leaves env _) λ _. checkpoint-Leaves env _)
              λ _. count_invalid-Leaves env host config)
            λ reached.
              then-Goes x _ _
                (Leaves-bind steps _ _ (report_limit-Leaves env host config reached)
                  λ _. observe_progress-Leaves env host config before)
                λ _. record { ensured = λ w h. h }

  accept_answer-Goes : (answer : String) → Goes x (accept_answer host env config parts answer)
  unfolding accept_answer
  accept_answer-Goes answer =
      then-Goes x _ _
        (Leaves-bind steps _ _
          (Leaves-bind steps _ _
            (Leaves-bind steps _ _ (record { leaves = λ w. refl }) λ _. append-Leaves env _)
            λ _. record { leaves = λ w. refl })
          λ _. checkpoint-Leaves env _)
        λ _. record { ensured = λ w h. h }

  judged-Goes :
      (before answer : String) (s : Session) (errors : List String)
      → Goes x (judged host env config parts before answer s errors)
  unfolding judged
  judged-Goes before answer s [] = go (is_complete host config s)
    where
      go :
          (b : Bool)
          → Goes x (if b then accept_answer host env config parts answer else return (some true))
      go true = accept_answer-Goes answer
      go false = record { ensured = λ w h. h }
  judged-Goes before answer s (e ∷ es) = reject_answer-Goes before answer (e ∷ es)

  renewed-Leaves :
      (taken : List String) (calls : List Value)
      → Leaves steps (renewed host env config parts taken calls)
  renewed-Leaves taken [] = record { leaves = λ w. refl }
  renewed-Leaves taken (call ∷ calls) =
      Leaves-bind steps _ _
        (Leaves-if steps (is_some_and (as_str (index "id" call)) (contains_text taken)) _ _
          (Leaves-bind steps _ _ (record { leaves = λ w. refl })
            λ id. record { leaves = λ w. refl })
          (record { leaves = λ w. refl }))
        λ c. Leaves-bind steps _ _ (renewed-Leaves taken calls) λ cs. record { leaves = λ w. refl }

  reserved-Leaves :
      (o : Option (List Effect → String → List String → Result String (List String)))
      (calls : List Value)
      → Leaves steps (reserved host env config parts o calls)
  unfolding reserved
  reserved-Leaves none calls = record { leaves = λ w. refl }
  reserved-Leaves (some lookup) calls =
      Leaves-bind steps _ _ (record { leaves = λ w. refl }) λ taken. renewed-Leaves taken calls

  schedule-Goes : (before : String) (d : Value) → Goes x (schedule host env config parts before d)
  unfolding schedule
  schedule-Goes before d = then-Goes x _ _ (reserved-Leaves parts.historical (calls_in d)) λ calls.
      then-Goes x _ _
        (Leaves-bind steps _ _
          (Leaves-bind steps _ _ (append-Leaves env _) λ _. record { leaves = λ w. refl })
          λ _.
            Leaves-bind steps current _ (record { leaves = λ w. refl })
              λ s. checkpoint-Leaves env _)
        λ _. settle_and_observe-Goes before

  judge_answer-Goes :
      (before : String) (d : Value) → Goes x (judge_answer host env config parts before d)
  unfolding judge_answer
  judge_answer-Goes before d =
      then-Goes x current _ (record { leaves = λ w. refl }) λ s. judged-Goes before _ s _

  pub act-Goes : (before : String) (d : Value) → Goes x (act host env config parts before d)
  unfolding act
  act-Goes before d = go (text_is (index "type" d) "invalid") (text_is (index "type" d) "final")
    where
      go :
          (b c : Bool)
          → Goes x (
              if b
              then reject_invalid host env config parts before d
              else if c
              then judge_answer host env config parts before d
              else schedule host env config parts before d)
      go true c = reject_invalid-Goes before d
      go false true = judge_answer-Goes before d
      go false false = schedule-Goes before d
