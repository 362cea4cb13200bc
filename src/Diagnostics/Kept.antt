-- ===== src/Diagnostics/Kept.antt =====
-- What the journal of agent-rust/src/diagnostics.rs leaves of a session.
use state_driven_agent.Common.{
  String, Option, none, some, List, [], ◌∷◌, ◌≡◌, refl, ◌∙◌, map, is_empty, Bool-cases, inl, inr,
  ok, ◌>>=◌, >>=-eq-ok,
}
use state_driven_agent.Json.{Value, str, index}
use state_driven_agent.Common.Int.{ℤ}
use state_driven_agent.Session.{Session}
use state_driven_agent.Session.Kept.{Held}
use state_driven_agent.Diagnostics.{
  append, append_all, stage, emptied, refresh_completeness, counted, with_attempt, with_savings,
  reduction_of, is_true, events_family, attempts_family, decisions_family,
}
use state_driven_agent.Diagnostics.Appended.{IsCached, event, attempt, decision, append-IsAppended}

with_savings-Held : (s : Session) (o : Option ℤ) → Held s (with_savings s o)
unfolding with_savings
with_savings-Held s none = refl
with_savings-Held s (some n) = refl

with_attempt-Held : (s : Session) (payload : Value) → Held s (with_attempt s payload)
unfolding with_attempt
with_attempt-Held s payload = elim (Bool-cases (is_true (index "accepted" payload))) [
  | inl accepted ↦ rw accepted (with_savings-Held s (reduction_of payload))
  | inr rejected ↦ rw rejected refl
]

cached-Held :
    (s t : Session) (family : String) (payload : Value) (n : ℤ)
    → IsCached s family payload t
    → Held s (refresh_completeness (counted family payload n t))
unfolding refresh_completeness
cached-Held s t family payload n (event text e f same) = rw same refl
cached-Held s t family payload n (attempt e same) = rw same (with_attempt-Held s payload)
cached-Held s t family payload n (decision e same) = rw same refl

append-Held :
    (s t : Session) (family : String) (payload : Value) → append s family payload ≡ ok t → Held s t
append-Held s t family payload h =
    let a = append-IsAppended s family payload t h in
    rw (a.after) (cached-Held s a.between family payload a.ordinal a.kept)

append_all-Held :
    (s t : Session) (family : String) (vs : List Value) → append_all family vs s ≡ ok t → Held s t
unfolding append_all
append_all-Held s t family [] h = let same : s ≡ t = cc in rw (← same) refl
append_all-Held s t family (v ∷ vs) h =
    let (u, first, rest) = >>=-eq-ok (append s family v) (append_all family vs) h in
    append_all-Held u t family vs rest ∙ append-Held s u family v first

pub stage-Held : (s t : Session) → stage s ≡ ok t → Held s t
unfolding stage
stage-Held s t h = elim (Bool-cases (is_empty s.diagnostic_counts)) [
  | inr journalled ↦ let same : s ≡ t = cc (rw journalled at h) in rw (← same) refl
  | inl new ↦
      let (b, first, last) =
        >>=-eq-ok
          (append_all events_family (map str s.compaction_events) (emptied s)
            >>= append_all attempts_family s.compaction_attempts)
          (append_all decisions_family s.compaction_decisions) (rw new at h) in
      let (a, events, attempts) =
        >>=-eq-ok (append_all events_family (map str s.compaction_events) (emptied s))
          (append_all attempts_family s.compaction_attempts) first in
      append_all-Held b t decisions_family s.compaction_decisions last
      ∙ (append_all-Held a b attempts_family s.compaction_attempts attempts
          ∙ append_all-Held (emptied s) a events_family (map str s.compaction_events) events)
]
