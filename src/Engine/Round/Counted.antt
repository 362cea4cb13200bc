-- ===== src/Engine/Round/Counted.antt =====
-- One round of agent-rust/src/engine.rs: it counts a step and goes on, or it stops the run.
use state_driven_agent.Common.{
  ℕ, ◌+◌, ◌<◌, ◌^◌, String, Bool, true, false, Option, none, some, List, [], ◌∷◌, ◌≡◌, refl, ap,
  ◌∙◌, ◌⊎◌, inl, inr, Result, ok, err,
}
use state_driven_agent.Common.Int.{ℤ, pos, add64, add64_in_range}
use state_driven_agent.Json.{Value}
use state_driven_agent.Json.Host.{Host}
use state_driven_agent.Config.{Config}
use state_driven_agent.Session.{Session, Transition, archive_record}
use state_driven_agent.Session.Kept.{held}
use state_driven_agent.Workflow.Kept.{advance-Held}
use state_driven_agent.Progress.{engine_checkpoint}
use state_driven_agent.Progress.Keeps.{engine_checkpoint-Leaves}
use state_driven_agent.Progress.Steady.{steps, checkpoint-Leaves}
use state_driven_agent.Actions.{World, Env, Action, current, modify, audit, ◌>>=◌, ◌>>◌}
use state_driven_agent.Actions.Frame.{Leaves, Leaves-bind, Leaves-of}
use state_driven_agent.Actions.Ensures.{Ensures, Via, Ensures-bind, Ensures-Leaves, Ensures-to}
use state_driven_agent.Engine.Parts.{Parts, counted_step}
use state_driven_agent.Engine.Answer.Goes.{GoesOn, act-Goes}
use state_driven_agent.Engine.Round.{
  emit_all, keep_all, announce, advanced, decided, after_compaction, stop_compaction, decide_round,
  after_compacting, round,
}

-- How a round ends that starts with this number of steps.
abbrev pub RoundEnds : ℕ → Result String (Option Bool) → Session → Type 0
RoundEnds n (ok none) s = ⊥
RoundEnds n (ok (some true)) s = steps s ≡ pos (n + 1)
RoundEnds n (ok (some false)) s = (steps s ≡ pos n) × (s.status ≡ "failed")
RoundEnds n (err e) s = (steps s ≡ pos n) ⊎ (steps s ≡ pos (n + 1))

pub audit-Leaves :
    (env : Env) (kind : String) (payload : Value) → Leaves steps (audit env kind payload)
unfolding archive_record
audit-Leaves env kind payload =
    Leaves-bind steps _ _ (record { leaves = λ w. refl })
      λ id.
        Leaves-bind steps _ _ (record { leaves = λ w. refl }) λ now. record { leaves = λ w. refl }

abbrev pub step_and_status : Session → ℤ × String
step_and_status s = (steps s, s.status)

pub checkpoint-keeps_status :
    (env : Env) (event : Value) → Leaves step_and_status (engine_checkpoint env event)
checkpoint-keeps_status env event =
    Leaves-of held (λ x. (x.0.1.1, x.1.0)) _ (engine_checkpoint-Leaves env event)

module _ (host : Host) (env : Env) (config : Config) (parts : Parts) (n : ℕ) where
  abbrev Rounds : Action (Option Bool) → Type 0
  Rounds m = Ensures (λ s. steps s ≡ pos n) (RoundEnds n) m

  then-Rounds :
      {A : Type 0} (m : Action A) (f : A → Action (Option Bool))
      → Leaves steps m
      → ((a : A) → Rounds (f a))
      → Rounds (m >>= f)
  then-Rounds m f p q = Ensures-Leaves steps (pos n) (RoundEnds n) m f (λ e s h. inl h) p q

  emit_all-Leaves : (ds : List Value) → Leaves steps (emit_all host env config parts ds)
  emit_all-Leaves [] = record { leaves = λ w. refl }
  emit_all-Leaves (d ∷ ds) = Leaves-bind steps _ _ (checkpoint-Leaves env _) λ _. emit_all-Leaves ds

  keep_all-Leaves : (ds : List Value) → Leaves steps (keep_all host env config parts ds)
  keep_all-Leaves [] = record { leaves = λ w. refl }
  keep_all-Leaves (d ∷ ds) =
      Leaves-bind steps _ _
        (Leaves-bind steps _ _ (record { leaves = λ w. refl }) λ _. checkpoint-Leaves env _)
        λ _. keep_all-Leaves ds

  announce-Leaves : (o : Option Transition) → Leaves steps (announce host env config parts o)
  announce-Leaves none = record { leaves = λ w. refl }
  announce-Leaves (some t) = checkpoint-Leaves env _

  advanced-Leaves : Leaves steps (advanced host env config parts)
  advanced-Leaves = record { leaves = λ w. ap (λ x. x.0.1.1) (advance-Held host config w.session) }

  decided-Leaves : Leaves steps (decided host env config parts)
  decided-Leaves =
      Leaves-bind steps current _ (record { leaves = λ w. refl })
        λ s. record { leaves = λ w. ap steps (parts.decide_reads _ w) }

  after_compaction-Leaves :
      (r : Result String Bool) → Leaves steps (after_compaction host env config parts r)
  after_compaction-Leaves (ok true) =
      Leaves-bind steps _ _
        (Leaves-bind steps current _ (record { leaves = λ w. refl }) λ s. checkpoint-Leaves env _)
        λ _. record { leaves = λ w. refl }
  after_compaction-Leaves (ok false) = record { leaves = λ w. refl }
  after_compaction-Leaves (err message) = record { leaves = λ w. refl }

  abbrev IsStopped : Unit {0} → Session → Type 0
  IsStopped u s = step_and_status s ≡ (pos n, "failed")

  abbrev OfStop : Result String (Unit {0}) → Session → Type 0
  OfStop = Via IsStopped (RoundEnds n)

  engine_checkpoint-OfStop :
      (event : Value) (u : Unit {0}) → Ensures (IsStopped u) OfStop (engine_checkpoint env event)
  engine_checkpoint-OfStop event u = record {
    ensured = λ w h.
        go (engine_checkpoint env event w) ((checkpoint-keeps_status env event).leaves w ∙ h);
  }
    where
      go :
          (r : Result String (Unit {0}) × World)
          → step_and_status r.1.session ≡ (pos n, "failed")
          → OfStop r.0 r.1.session
      go (ok u, v) h = h
      go (err e, v) h = inl (ap (λ x. x.0) h)

  stop_compaction-Rounds :
      (message : String) → Rounds (stop_compaction host env config parts message)
  unfolding stop_compaction
  stop_compaction-Rounds message =
      Ensures-bind (λ s. steps s ≡ pos n) IsStopped (RoundEnds n) _ _
        (Ensures-bind (λ s. steps s ≡ pos n) IsStopped OfStop _ _
          (record { ensured = λ w h. ap (λ x. (x, "failed")) h }) (engine_checkpoint-OfStop _))
        λ _. record { ensured = λ w h. (ap (λ x. x.0) h, ap (λ x. x.1) h) }

  -- Behind the count of the step.
  counted-RoundEnds :
      (r : Result String (Option Bool)) (s : Session) → GoesOn (pos (n + 1)) r s → RoundEnds n r s
  counted-RoundEnds (ok (some true)) s h = h
  counted-RoundEnds (ok (some false)) s h = absurd h
  counted-RoundEnds (ok none) s h = absurd h
  counted-RoundEnds (err e) s h = inr h

  module _ (in_range : n + 1 < 2 ^ 63) where
    abbrev IsCounted : Unit {0} → Session → Type 0
    IsCounted u s = steps s ≡ pos (n + 1)

    abbrev OfCount : Result String (Unit {0}) → Session → Type 0
    OfCount = Via IsCounted (RoundEnds n)

    count-Ensures : Ensures (λ s. steps s ≡ pos n) OfCount (modify counted_step)
    count-Ensures = record {
      ensured = λ w h. ap (λ x. add64 x (pos 1)) h ∙ add64_in_range n in_range;
    }

    audit-Ensures :
        (kind : String) (payload : Value) (u : Unit {0})
        → Ensures (IsCounted u) OfCount (audit env kind payload)
    audit-Ensures kind payload u = record {
      ensured = λ w h. go (audit env kind payload w) ((audit-Leaves env kind payload).leaves w ∙ h);
    }
      where
        go :
            (r : Result String (Unit {0}) × World)
            → steps r.1.session ≡ pos (n + 1)
            → OfCount r.0 r.1.session
        go (ok u, v) h = h
        go (err e, v) h = inr h

    counting-Ensures :
        (ds : List Value) (kind : String) (payload : Value)
        → Ensures
            (λ s. steps s ≡ pos n)
            OfCount
            (keep_all host env config parts ds >> modify counted_step >> audit env kind payload)
    counting-Ensures ds kind payload =
        Ensures-bind (λ s. steps s ≡ pos n) IsCounted OfCount _ _
          (Ensures-Leaves steps (pos n) (Via IsCounted OfCount) _ _ (λ e s h. inl h)
            (keep_all-Leaves ds) λ _. counted_too)
          (audit-Ensures kind payload)
      where
        counted_too : Ensures (λ s. steps s ≡ pos n) (Via IsCounted OfCount) (modify counted_step)
        counted_too = record { ensured = λ w h. count-Ensures.ensured w h }

    decide_round-Rounds : Rounds (decide_round host env config parts)
    unfolding decide_round
    decide_round-Rounds =
        then-Rounds current _ (record { leaves = λ w. refl })
          λ s.
            then-Rounds _ _
              (Leaves-bind steps _ _ (checkpoint-Leaves env _) λ _. record { leaves = λ w. refl })
              λ t. then-Rounds _ _ decided-Leaves λ d.
                Ensures-bind (λ s. steps s ≡ pos n) (λ _ s. steps s ≡ pos (n + 1)) (RoundEnds n) _ _
                  (counting-Ensures _ _ _)
                  λ _.
                    Ensures-to (λ s. steps s ≡ pos (n + 1)) (GoesOn (pos (n + 1))) (RoundEnds n) _
                      counted-RoundEnds (act-Goes host env config parts (pos (n + 1)) _ _)

    after_compacting-Rounds :
        (o : Option String) → Rounds (after_compacting host env config parts o)
    unfolding after_compacting
    after_compacting-Rounds none = decide_round-Rounds
    after_compacting-Rounds (some message) = stop_compaction-Rounds message

    -- A round is an error, or it counts one step and the loop goes on, or it ends the loop with the
    -- session failed.
    pub round-Rounds : Rounds (round host env config parts)
    unfolding round
    round-Rounds =
        then-Rounds _ _
          (Leaves-bind steps _ _ (Leaves-bind steps _ _ advanced-Leaves announce-Leaves)
            λ _. record { leaves = λ w. refl })
          λ s.
            then-Rounds _ _
              (Leaves-bind steps _ _ (record { leaves = parts.compact_steady })
                after_compaction-Leaves)
              λ e.
                then-Rounds current _ (record { leaves = λ w. refl })
                  λ t. then-Rounds _ _ (emit_all-Leaves _) λ _. after_compacting-Rounds e
