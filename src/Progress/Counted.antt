-- ===== src/Progress/Counted.antt =====
-- What the observation of progress in agent-rust/src/engine.rs counts, and what it does at the limit.
use state_driven_agent.Common.{
  ◌⊎◌, inl, inr, ℕ, ◌+◌, ◌/◌, ◌%◌, ◌^◌, ◌≤◌, ◌<◌, ◌==◌, String, Bool, true, false, Option, none,
  some, [], ◌∷◌, ◌++◌, ◌≡◌, ◌≢◌, refl, ap, ◌∙◌, arith, str_eq, eq_iff, leb, max, if◌then◌else◌,
  Result, ok, err,
}
use state_driven_agent.Json.{Value}
use state_driven_agent.Json.Host.{Host}
use state_driven_agent.Config.{Config}
use state_driven_agent.Session.{Session, msg, append_message}
use state_driven_agent.Session.Kept.{conversation, unstamped, held, conversation-append_message}
use state_driven_agent.Actions.{
  drew_id, World, Env, Action, return, modify, current, proceed, ◌>>=◌,
}
use state_driven_agent.Progress.{
  append, engine_checkpoint, observe_progress, count_progress, judge, warn, stop, limit_of,
  progress_fingerprint, stopped,
}
use state_driven_agent.Progress.Keeps.{engine_checkpoint-Leaves}

-- A message of the user is appended, or none is.
abbrev pub Warned : Bool → Session → Session → Type 0
Warned true s t =
    (text : String) × (conversation t.memory
      ≡ conversation s.memory ++ unstamped (msg "user" (some text)) ∷ [])
Warned false s t = conversation t.memory ≡ conversation s.memory

module _ (host : Host) (env : Env) (config : Config) where
  -- What judging does, where it is to warn and where it is to stop: a failed commit of the warning leaves
  -- the run as it is.
  record IsJudged (warned halted : Bool) (s : Session) (r : Result String (Unit {0}) × World)
      : Type 0 where
    counts : (held r.1.session).1.1 ≡ (held s).1.1
    told : Warned warned s r.1.session
    failed : halted ≡ true → r.0 ≡ ok tt → r.1.session.status ≡ "failed"
    going : halted ≡ false → r.1.session.status ≡ s.status

  abbrev warning : Bool → Session → Action (Unit {0})
  warning b s = if b then warn env host config s else return tt

  abbrev stopping : Bool → ℕ → Session → Action (Unit {0})
  stopping b limit s = if b then stop env host config limit s else return tt

  appended-held :
      (text : String) (event : Value) (w : World)
      → let r : Result String (Unit {0}) × World =
          (append env (msg "user" (some text)) >>= λ _. engine_checkpoint env event) w in
        ((held r.1.session).1 ≡ (held w.session).1)
        × (conversation r.1.session.memory
            ≡ conversation w.session.memory ++ unstamped (msg "user" (some text)) ∷ [])
  unfolding ◌>>=◌ append_message
  appended-held text event w =
      let v : World = (append env (msg "user" (some text)) w).1 in
      let kept = (engine_checkpoint-Leaves env event).leaves v in
      (
        ap (λ x. x.1) kept,
        ap (λ x. x.0.0.0) kept
            ∙ conversation-append_message w.session (env.fresh_id w.log)
                (env.timestamp (drew_id ∷ w.log)) (msg "user" (some text)),
      )

  warning-held :
      (b : Bool) (s : Session) (w : World)
      → ((held (warning b s w).1.session).1 ≡ (held w.session).1)
        × Warned b w.session (warning b s w).1.session
  unfolding warn
  warning-held false s w = (refl, refl)
  warning-held true s w = let (h, k) = appended-held _ _ w in (h, (_, k))

  modified-held :
      (f : Session → Session) (event : Value) (w : World)
      → held ((modify f >>= λ _. engine_checkpoint env event) w).1.session ≡ held (f w.session)
  unfolding ◌>>=◌
  modified-held f event w =
      (engine_checkpoint-Leaves env event).leaves (record w { session = f w.session })

  stop-held :
      (limit : ℕ) (s : Session) (w : World)
      → held (stop env host config limit s w).1.session
        ≡ held (record w.session { status = "failed" })
  unfolding stop
  stop-held limit s w = modified-held (stopped env host config _) _ w

  stopping-IsJudged :
      (warned halted : Bool) (limit : ℕ) (s t : Session) (w : World)
      (r : Result String (Unit {0}) × World)
      → (held r.1.session).1 ≡ (held t).1
      → Warned warned t r.1.session
      → IsJudged warned halted t (proceed (λ _. stopping halted limit s) r)
  stopping-IsJudged warned halted limit s t w (err x, v) h told = record {
    counts = ap (λ x. x.1) h;
    told = told;
    failed = λ b e. cc;
    going = λ b. ap (λ x. x.0) h;
  }
  stopping-IsJudged warned false limit s t w (ok u, v) h told = record {
    counts = ap (λ x. x.1) h;
    told = told;
    failed = λ b e. cc;
    going = λ b. ap (λ x. x.0) h;
  }
  stopping-IsJudged warned true limit s t w (ok u, v) h told =
      let kept = stop-held limit s v in
      record {
        counts = ap (λ x. x.1.1) kept ∙ ap (λ x. x.1) h;
        told = over warned _ (ap (λ x. x.0.0.0) kept) told;
        failed = λ b e. ap (λ x. x.1.0) kept;
        going = λ b. cc;
      }
    where
      over :
          (b : Bool) (z : Session)
          → conversation z.memory ≡ conversation v.session.memory
          → Warned b t v.session
          → Warned b t z
      over true z e (text, k) = (text, e ∙ k)
      over false z e k = e ∙ k

  judged :
      (warned halted : Bool) (limit : ℕ) (w : World)
      → IsJudged warned halted w.session
          (proceed (λ _. stopping halted limit w.session) (warning warned w.session w))
  judged warned halted limit w =
      let (h, told) = warning-held warned w.session w in
      stopping-IsJudged warned halted limit w.session w.session w _ h told

  abbrev pub warning_at : ℕ → ℕ
  warning_at limit = max (limit / 2) 1

  -- What the observation does with a number of decisions without progress, under a limit: it warns at
  -- half of it, and at the limit the run fails, unless the observation itself does.
  pub record IsLimited (limit steps : ℕ) (s : Session) (r : Result String (Unit {0}) × World)
      : Type 0 where
    pub told :
        ((steps ≡ warning_at limit) × Warned true s r.1.session)
        ⊎ ((steps ≢ warning_at limit) × Warned false s r.1.session)
    pub ended :
        ((limit ≤ steps) × ((r.1.session.status ≡ "failed") ⊎ (e : String) × (r.0 ≡ err e)))
        ⊎ ((steps < limit) × (r.1.session.status ≡ s.status))

  IsJudged-IsLimited :
      (limit steps : ℕ) (s t : Session) (r : Result String (Unit {0}) × World) (b1 b2 : Bool)
      → (steps == warning_at limit) ≡ b1
      → leb limit steps ≡ b2
      → s.memory ≡ t.memory
      → s.status ≡ t.status
      → IsJudged b1 b2 s r
      → IsLimited limit steps t r
  IsJudged-IsLimited limit steps s t r b1 b2 e f m a j = record {
    told = telling b1 e j.told;
    ended = ending b2 f j.failed j.going r.0 refl;
  }
    where
      telling :
          (b : Bool)
          → (steps == warning_at limit) ≡ b
          → Warned b s r.1.session
          → ((steps ≡ warning_at limit) × Warned true t r.1.session)
            ⊎ ((steps ≢ warning_at limit) × Warned false t r.1.session)
      telling true e (text, k) = inl (ground arith, (text, rw m at k))
      telling false e k = inr (λ same. absurd (ground arith), rw m at k)

      ending :
          (b : Bool)
          → leb limit steps ≡ b
          → (b ≡ true → r.0 ≡ ok tt → r.1.session.status ≡ "failed")
          → (b ≡ false → r.1.session.status ≡ s.status)
          → (x : Result String (Unit {0})) → r.0 ≡ x
          → ((limit ≤ steps) × ((r.1.session.status ≡ "failed") ⊎ (e : String) × (r.0 ≡ err e)))
            ⊎ ((steps < limit) × (r.1.session.status ≡ t.status))
      ending true e p q (ok u) k = inl (ground arith, inl (p refl k))
      ending true e p q (err x) k = inl (ground arith, inr (x, k))
      ending false e p q x k = inr (ground arith, q refl ∙ a)

  -- What an observation of a world ends with: there is progress, or there is none, without a limit or
  -- with one.
  pub data IsObserved (before : String) (w : World) (r : Result String (Unit {0}) × World)
      : Type 0 where
    progressed :
        progress_fingerprint host config w.session ≢ before
        → r.0 ≡ ok tt
        → r.1.session.no_progress_steps ≡ 0
        → r.1.session.progress_fingerprint ≡ some (progress_fingerprint host config w.session)
        → r.1.session.status ≡ w.session.status
        → r.1.log ≡ w.log
        → Warned false w.session r.1.session
        → IsObserved before w r
    unlimited :
        progress_fingerprint host config w.session ≡ before
        → limit_of env host config ≡ none
        → r.0 ≡ ok tt
        → r.1.session.no_progress_steps ≡ (w.session.no_progress_steps + 1) % 2 ^ 64
        → r.1.session.progress_fingerprint ≡ some before
        → r.1.session.status ≡ w.session.status
        → r.1.log ≡ w.log
        → Warned false w.session r.1.session
        → IsObserved before w r
    limited :
        (limit : ℕ)
        → progress_fingerprint host config w.session ≡ before
        → limit_of env host config ≡ some limit
        → r.1.session.no_progress_steps ≡ (w.session.no_progress_steps + 1) % 2 ^ 64
        → r.1.session.progress_fingerprint ≡ some before
        → IsLimited limit ((w.session.no_progress_steps + 1) % 2 ^ 64) w.session r
        → IsObserved before w r

  -- Whatever observing the progress returns, an error included, the session has the new fingerprint.
  -- If it differs from the one before, no decision counts as one without progress; else the count is
  -- one more, on 64 bits. Where it differs or there is no limit, the observation succeeds, there is
  -- no effect, the status stays and no message is appended. Else, but for what the store stamps on
  -- the messages, one message is appended exactly if the count is half of the limit, or 1 if that is
  -- 0; below the limit the status stays, and from the limit on it is that of a failed run, or the
  -- observation returns an error.
  pub observe_progress-IsObserved :
      (before : String) (w : World)
      → IsObserved before w (observe_progress env host config before w)
  unfolding observe_progress count_progress judge ◌>>=◌
  observe_progress-IsObserved before w = go (str_eq now before) refl (limit_of env host config) refl
    where
      now : String
      now = progress_fingerprint host config w.session

      v : Bool → World
      v b = record w {
        session = record w.session {
          no_progress_steps = if b then (w.session.no_progress_steps + 1) % 2 ^ 64 else 0;
          progress_fingerprint = some now;
        };
      }

      go :
          (b : Bool)
          → str_eq now before ≡ b
          → (o : Option ℕ) → limit_of env host config ≡ o
          → IsObserved before w
              ((if b then (current >>= λ t. judge env host config t o) else return tt) (v b))
      go false e o f =
          progressed (λ same. absurd (ground (arith, eq_iff now before))) refl refl refl refl refl
            refl
      go true e none f =
          let same = (eq_iff now before).0 e in
          unlimited same f refl refl (ap some same) refl refl refl
      go true e (some limit) f =
          let steps = (w.session.no_progress_steps + 1) % 2 ^ 64 in
          let j = judged (steps == warning_at limit) (leb limit steps) limit (v true) in
          let same = (eq_iff now before).0 e in
          limited limit same f (ap (λ x. x.0) j.counts) (ap (λ x. x.1) j.counts ∙ ap some same) (
            IsJudged-IsLimited limit steps (v true).session w.session _ (steps == warning_at limit)
              (leb limit steps) refl refl refl refl j)
