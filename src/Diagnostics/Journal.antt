-- ===== src/Diagnostics/Journal.antt =====
-- The invariant of the journal of agent-rust/src/diagnostics.rs: the length of each cache against its
-- counter.
use state_driven_agent.Diagnostics.Appended.{IsCached, event, attempt, decision, append-IsAppended}
use Prim.Native.Nat.{min}
use state_driven_agent.Common.{
  ℕ, ◌+◌, ◌-◌, String, true, false, not, ◌&&◌, Option, none, some, List, [], ◌∷◌, ◌++◌, ◌≡◌, ◌⊎◌,
  refl, arith, if◌then◌else◌, str_eq, eq_iff, contains_text, require, is_empty, length, ok, ◌>>=◌,
  >>=-eq-ok, map, length-append, length-drop, Bool-cases, inl, inr,
}
use state_driven_agent.Common.Int.{ℤ, pos, negsuc, checked_add, ◌+ℤ◌}
use state_driven_agent.Json.{Value, str, index}
use state_driven_agent.Session.{Session}
use state_driven_agent.Diagnostics.{
  events_family, attempts_family, decisions_family, Fault, unknown_family, count_of, put_count,
  trim, with_attempt, with_savings, push_attempt, push_decision, counted, append, append_all, stage,
  emptied, record_diagnostic, refresh_completeness, reduction_of, is_true, families, is_string,
}

pub count_of-put_count :
    (family : String) (n : ℤ) (counts : List (String × ℤ)) (j : String)
    → count_of (put_count family n counts) j ≡ (if str_eq family j then n else count_of counts j)
unfolding count_of put_count
count_of-put_count family n [] j = refl
count_of-put_count family n ((k, m) ∷ counts) j =
    ground
      (arith, eq_iff k family, eq_iff k j, eq_iff family j, count_of-put_count family n counts j)

length-trim {ℓ} : {A : Type ℓ} (xs : List A) → length (trim xs) ≡ min (length xs) 32
unfolding trim
length-trim xs = ground (arith, length-drop (length xs - 32) xs)

-- A cache of this length belongs to a counter of this value.
abbrev pub Tallied : ℤ → ℕ → Type 0
Tallied (pos n) size = size ≡ min n 32
Tallied (negsuc n) size = ⊥

Tallied-push {ℓ} :
    {A : Type ℓ} (c c' : ℤ) (xs : List A) (x : A)
    → Tallied c (length xs)
    → checked_add c (pos 1) ≡ some c'
    → Tallied c' (length (trim (xs ++ x ∷ [])))
unfolding checked_add ◌+ℤ◌
Tallied-push (pos n) c' xs x t h =
    let size : length (xs ++ x ∷ []) ≡ length xs + 1 = length-append xs (x ∷ []) in
    let next : c' ≡ pos (n + 1) = ground arith in
    rw (next, length-trim (xs ++ x ∷ []), size) (omega arith)
Tallied-push (negsuc n) c' xs x t h = absurd t

-- The invariant: all three families are tallied.
pub record IsJournal (s : Session) : Type 0 where
  pub events : Tallied (count_of s.diagnostic_counts events_family) (length s.compaction_events)
  pub attempts :
      Tallied (count_of s.diagnostic_counts attempts_family) (length s.compaction_attempts)
  pub decisions :
      Tallied (count_of s.diagnostic_counts decisions_family) (length s.compaction_decisions)

-- What an attempt's bookkeeping leaves alone.
pub record SameCaches (s t : Session) : Type 0 where
  pub counts : t.diagnostic_counts ≡ s.diagnostic_counts
  pub events : t.compaction_events ≡ s.compaction_events
  pub attempts : t.compaction_attempts ≡ s.compaction_attempts
  pub decisions : t.compaction_decisions ≡ s.compaction_decisions
  pub outbox : t.diagnostics_pending ≡ s.diagnostics_pending

SameCaches-refl : (s : Session) → SameCaches s s
SameCaches-refl s = record {
  counts = refl;
  events = refl;
  attempts = refl;
  decisions = refl;
  outbox = refl;
}

with_savings-SameCaches : (s : Session) (o : Option ℤ) → SameCaches s (with_savings s o)
unfolding with_savings
with_savings-SameCaches s none = record {
  counts = refl;
  events = refl;
  attempts = refl;
  decisions = refl;
  outbox = refl;
}
with_savings-SameCaches s (some n) = record {
  counts = refl;
  events = refl;
  attempts = refl;
  decisions = refl;
  outbox = refl;
}

pub with_attempt-SameCaches :
    (s : Session) (payload : Value) → SameCaches s (with_attempt s payload)
unfolding with_attempt
with_attempt-SameCaches s payload = elim (Bool-cases (is_true (index "accepted" payload))) [
  | inl accepted ↦ rw accepted (with_savings-SameCaches s (reduction_of payload))
  | inr rejected ↦
      rw rejected
        (record { counts = refl; events = refl; attempts = refl; decisions = refl; outbox = refl })
]

event-IsJournal :
    (s : Session) (payload : Value) (text : String) (n : ℤ)
    → IsJournal s
    → checked_add (count_of s.diagnostic_counts events_family) (pos 1) ≡ some n
    → IsJournal (
        refresh_completeness (
          counted events_family payload n
            (record s { compaction_events = trim (s.compaction_events ++ text ∷ []) })))
unfolding refresh_completeness
event-IsJournal s payload text n v h = record {
  events = rw (count_of-put_count events_family n s.diagnostic_counts events_family) (
      Tallied-push (count_of s.diagnostic_counts events_family) n s.compaction_events text v.events
        h);
  attempts = rw (count_of-put_count events_family n s.diagnostic_counts attempts_family) v.attempts;
  decisions =
      rw (count_of-put_count events_family n s.diagnostic_counts decisions_family) v.decisions;
}

attempt-IsJournal :
    (s t : Session) (payload : Value) (n : ℤ)
    → IsJournal s
    → SameCaches s t
    → checked_add (count_of s.diagnostic_counts attempts_family) (pos 1) ≡ some n
    → IsJournal (refresh_completeness (counted attempts_family payload n (push_attempt t payload)))
unfolding refresh_completeness
attempt-IsJournal s t payload n v k h = record {
  events =
      rw
        (k.counts, k.events, count_of-put_count attempts_family n s.diagnostic_counts events_family)
        v.events;
  attempts =
      rw
        (
          k.counts,
          k.attempts,
          count_of-put_count attempts_family n s.diagnostic_counts attempts_family,
        )
        (Tallied-push (count_of s.diagnostic_counts attempts_family) n s.compaction_attempts payload
          v.attempts h);
  decisions =
      rw
        (
          k.counts,
          k.decisions,
          count_of-put_count attempts_family n s.diagnostic_counts decisions_family,
        )
        v.decisions;
}

decision-IsJournal :
    (s : Session) (payload : Value) (n : ℤ)
    → IsJournal s
    → checked_add (count_of s.diagnostic_counts decisions_family) (pos 1) ≡ some n
    → IsJournal
        (refresh_completeness (counted decisions_family payload n (push_decision s payload)))
unfolding refresh_completeness
decision-IsJournal s payload n v h = record {
  events = rw (count_of-put_count decisions_family n s.diagnostic_counts events_family) v.events;
  attempts =
      rw (count_of-put_count decisions_family n s.diagnostic_counts attempts_family) v.attempts;
  decisions = rw (count_of-put_count decisions_family n s.diagnostic_counts decisions_family) (
      Tallied-push (count_of s.diagnostic_counts decisions_family) n s.compaction_decisions payload
        v.decisions h);
}

IsCached-IsJournal :
    (s t : Session) (family : String) (payload : Value) (n : ℤ)
    → IsJournal s
    → checked_add (count_of s.diagnostic_counts family) (pos 1) ≡ some n
    → IsCached s family payload t
    → IsJournal (refresh_completeness (counted family payload n t))
IsCached-IsJournal s t family payload n v h (event text e f same) =
    rw (e, same) (event-IsJournal s payload text n v (rw e at h))
IsCached-IsJournal s t family payload n v h (attempt e same) =
    rw (e, same)
      (attempt-IsJournal s (with_attempt s payload) payload n v (with_attempt-SameCaches s payload)
        (rw e at h))
IsCached-IsJournal s t family payload n v h (decision e same) =
    rw (e, same) (decision-IsJournal s payload n v (rw e at h))

append-IsJournal :
    (s s' : Session) (family : String) (payload : Value)
    → IsJournal s
    → append s family payload ≡ ok s'
    → IsJournal s'
append-IsJournal s s' family payload v h =
    let a = append-IsAppended s family payload s' h in
    rw (a.after) (IsCached-IsJournal s a.between family payload a.ordinal v a.next a.kept)

append_all-IsJournal :
    (s s' : Session) (family : String) (vs : List Value)
    → IsJournal s
    → append_all family vs s ≡ ok s'
    → IsJournal s'
unfolding append_all
append_all-IsJournal s s' family [] v h = let same : s ≡ s' = cc in rw (← same) v
append_all-IsJournal s s' family (x ∷ xs) v h =
    let (t, first, rest) = >>=-eq-ok (append s family x) (append_all family xs) h in
    append_all-IsJournal t s' family xs (append-IsJournal s t family x v first) rest

-- A snapshot without counters is journalled in full.
stage-IsJournal :
    (s s' : Session) → (s.diagnostic_counts ≡ []) ⊎ IsJournal s → stage s ≡ ok s' → IsJournal s'
unfolding stage count_of
stage-IsJournal s s' start h = elim (Bool-cases (is_empty s.diagnostic_counts)) [
  | inr journalled ↦
      let same : s ≡ s' = cc (rw journalled at h) in rw (← same) (old journalled start)
  | inl new ↦
      let (b, first, last) =
        >>=-eq-ok
          (append_all events_family (map str s.compaction_events) (emptied s)
            >>= append_all attempts_family s.compaction_attempts)
          (append_all decisions_family s.compaction_decisions) (rw new at h) in
      let (a, events, attempts) =
        >>=-eq-ok (append_all events_family (map str s.compaction_events) (emptied s))
          (append_all attempts_family s.compaction_attempts) first in
      append_all-IsJournal b s' decisions_family s.compaction_decisions
        (append_all-IsJournal a b attempts_family s.compaction_attempts
          (append_all-IsJournal (emptied s) a events_family (map str s.compaction_events)
            (emptied-IsJournal new) events)
          attempts)
        last
]
  where
    old :
        is_empty s.diagnostic_counts ≡ false
        → (s.diagnostic_counts ≡ []) ⊎ IsJournal s
        → IsJournal s
    old e (inl f) = cc (rw f at e)
    old e (inr v) = v

    no_counts : (l : List (String × ℤ)) → is_empty l ≡ true → l ≡ []
    no_counts [] e = refl
    no_counts (x ∷ l) e = cc

    emptied-IsJournal : is_empty s.diagnostic_counts ≡ true → IsJournal (emptied s)
    emptied-IsJournal e =
        let f = no_counts s.diagnostic_counts e in
        record {
          events = rw (f, count_of) (omega arith);
          attempts = rw (f, count_of) (omega arith);
          decisions = rw (f, count_of) (omega arith);
        }

-- From a snapshot without counters, or from a session with the invariant, a recorded diagnostic
-- entry leads to a session with the invariant: each of the three caches holds as many entries as its
-- counter says, up to the limit of 32.
pub record_diagnostic-IsJournal :
    (s s' : Session) (family : String) (payload : Value)
    → (s.diagnostic_counts ≡ []) ⊎ IsJournal s
    → record_diagnostic s family payload ≡ ok s'
    → IsJournal s'
unfolding record_diagnostic
record_diagnostic-IsJournal s s' family payload start h =
    let (_, known, h') =
      >>=-eq-ok (require (contains_text families family) (unknown_family family)) _ h in
    let (_, summary, h'') =
      >>=-eq-ok
        (require (not (str_eq family events_family && not (is_string payload))) Fault.not_summary) _
        h' in
    let (t, staged, appended) = >>=-eq-ok (stage s) (λ t. append t family payload) h'' in
    append-IsJournal t s' family payload (stage-IsJournal s t start staged) appended
