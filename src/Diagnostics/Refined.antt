-- ===== src/Diagnostics/Refined.antt =====
-- The journal of agent-rust/src/diagnostics.rs against its whole history: what a session stands for, whose
-- caches only hold the most recent entries.
use state_driven_agent.Common.{
  ℕ, zero, suc, ◌+◌, ◌-◌, ◌≤◌, String, true, not, ◌&&◌, Option, none, some, List, [], ◌∷◌, ◌++◌,
  ◌≡◌, refl, ap, sym, ◌∙◌, arith, if◌then◌else◌, str_eq, contains_text, require, is_empty, length,
  drop, ok, >>=-eq-ok, length-append, length-drop, Bool-cases, inl, inr, ltb,
}
use state_driven_agent.Common.Int.{ℤ, pos, checked_add, ◌+ℤ◌}
use state_driven_agent.Json.{Value, as_str}
use state_driven_agent.Session.{Session}
use state_driven_agent.Diagnostics.{
  events_family, attempts_family, decisions_family, Fault, unknown_family, count_of, trim,
  with_attempt, push_attempt, push_decision, counted, append, append_all, stage, emptied,
  record_diagnostic, refresh_completeness, families, is_string,
}
use state_driven_agent.Diagnostics.Appended.{IsCached, event, attempt, decision, append-IsAppended}
use state_driven_agent.Diagnostics.Journal.{count_of-put_count, SameCaches, with_attempt-SameCaches}

-- All entries of the three families, from the first on.
pub record History : Type 0 where
  pub events : List String
  pub attempts : List Value
  pub decisions : List Value

abbrev text_entry : Option String → List String
text_entry none = []
text_entry (some s) = s ∷ []

-- The history with one more entry.
abbrev pub recorded : String → Value → History → History
recorded family payload h =
    if str_eq family events_family
    then record h { events = h.events ++ text_entry (as_str payload) }
    else if str_eq family attempts_family
    then record h { attempts = h.attempts ++ payload ∷ [] }
    else record h { decisions = h.decisions ++ payload ∷ [] }

-- The last 32 entries.
abbrev pub recent {ℓ} : {A : Type ℓ} → List A → List A
recent xs = drop (length xs - 32) xs

-- A counter and a cache stand for the entries of a family.
abbrev pub StandsFor : {A : Type 0} → ℤ → List A → List A → Type 0
StandsFor count cache entries = (count ≡ pos (length entries)) × (cache ≡ recent entries)

pub record Refines (h : History) (s : Session) : Type 0 where
  pub events : StandsFor (count_of s.diagnostic_counts events_family) s.compaction_events h.events
  pub attempts :
      StandsFor (count_of s.diagnostic_counts attempts_family) s.compaction_attempts h.attempts
  pub decisions :
      StandsFor (count_of s.diagnostic_counts decisions_family) s.compaction_decisions h.decisions

drop-append :
    {A : Type 0} (n : ℕ) (xs ys : List A) → n ≤ length xs → drop n (xs ++ ys) ≡ drop n xs ++ ys
drop-append zero xs ys h = refl
drop-append (suc n) [] ys h = absurd (omega arith)
drop-append (suc n) (x ∷ xs) ys h = drop-append n xs ys (omega arith)

drop-drop : {A : Type 0} (m n : ℕ) (xs : List A) → drop m (drop n xs) ≡ drop (n + m) xs
drop-drop m zero xs = ap (λ k. drop k xs) (omega arith)
drop-drop m (suc n) [] = nothing m ∙ sym (nothing (suc n + m))
  where
    nothing : {A : Type 0} (k : ℕ) → drop {A = A} k [] ≡ []
    nothing zero = refl
    nothing (suc k) = refl
drop-drop m (suc n) (x ∷ xs) =
    let next : suc (n + m) ≡ suc n + m = omega arith in
    drop-drop m n xs ∙ ap (λ k. drop k (x ∷ xs)) next

trim-recent : {A : Type 0} (xs : List A) → trim xs ≡ recent xs
unfolding trim
trim-recent xs = elim (Bool-cases (ltb 32 (length xs))) [
  | inl many ↦ rw many refl
  | inr few ↦ let none_dropped : length xs - 32 ≡ 0 = ground arith in rw (few, none_dropped) refl
]

recent-push :
    {A : Type 0} (xs : List A) (x : A) → recent (recent xs ++ x ∷ []) ≡ recent (xs ++ x ∷ [])
recent-push xs x =
    let size : length (xs ++ x ∷ []) ≡ length xs + 1 = length-append xs (x ∷ []) in
    let kept : length (recent xs ++ x ∷ []) ≡ length (recent xs) + 1 =
      length-append (recent xs) (x ∷ []) in
    let dropped : length (recent xs) ≡ length xs - (length xs - 32) =
      length-drop (length xs - 32) xs in
    ap (drop (length (recent xs ++ x ∷ []) - 32))
      (sym (drop-append (length xs - 32) xs (x ∷ []) (omega arith)))
    ∙ (drop-drop (length (recent xs ++ x ∷ []) - 32) (length xs - 32) (xs ++ x ∷ [])
        ∙ ap (λ k. drop k (xs ++ x ∷ [])) (omega arith))

StandsFor-push :
    {A : Type 0} (c c' : ℤ) (cache entries : List A) (x : A)
    → StandsFor c cache entries
    → checked_add c (pos 1) ≡ some c'
    → StandsFor c' (trim (cache ++ x ∷ [])) (entries ++ x ∷ [])
unfolding checked_add ◌+ℤ◌
StandsFor-push c c' cache entries x (count, same) h =
    let size : length (entries ++ x ∷ []) ≡ length entries + 1 = length-append entries (x ∷ []) in
    let h' : checked_add (pos (length entries)) (pos 1) ≡ some c' =
      ap (λ z. checked_add z (pos 1)) (sym count) ∙ h in
    (
      next (length entries) (length (entries ++ x ∷ [])) h' size,
      trim-recent (cache ++ x ∷ []) ∙ (ap (λ l. recent (l ++ x ∷ [])) same ∙ recent-push entries x),
    )
  where
    next : (n m : ℕ) → checked_add (pos n) (pos 1) ≡ some c' → m ≡ n + 1 → c' ≡ pos m
    next n m k e = ground arith

module _ (h : History) (s : Session) (payload : Value) (n : ℤ) (r : Refines h s) where
  event-Refines :
      (text : String)
      → checked_add (count_of s.diagnostic_counts events_family) (pos 1) ≡ some n
      → Refines
          (record h { events = h.events ++ text ∷ [] })
          (refresh_completeness (
            counted events_family payload n
              (record s { compaction_events = trim (s.compaction_events ++ text ∷ []) })))
  unfolding refresh_completeness
  event-Refines text next = record {
    events =
        rw (count_of-put_count events_family n s.diagnostic_counts events_family)
          (StandsFor-push _ n s.compaction_events h.events text r.events next);
    attempts =
        rw (count_of-put_count events_family n s.diagnostic_counts attempts_family) r.attempts;
    decisions =
        rw (count_of-put_count events_family n s.diagnostic_counts decisions_family) r.decisions;
  }

  attempt-Refines :
      (t : Session)
      → SameCaches s t
      → checked_add (count_of s.diagnostic_counts attempts_family) (pos 1) ≡ some n
      → Refines
          (record h { attempts = h.attempts ++ payload ∷ [] })
          (refresh_completeness (counted attempts_family payload n (push_attempt t payload)))
  unfolding refresh_completeness
  attempt-Refines t k next = record {
    events =
        rw
          (
            k.counts,
            k.events,
            count_of-put_count attempts_family n s.diagnostic_counts events_family,
          )
          r.events;
    attempts =
        rw
          (
            k.counts,
            k.attempts,
            count_of-put_count attempts_family n s.diagnostic_counts attempts_family,
          )
          (StandsFor-push _ n s.compaction_attempts h.attempts payload r.attempts next);
    decisions =
        rw
          (
            k.counts,
            k.decisions,
            count_of-put_count attempts_family n s.diagnostic_counts decisions_family,
          )
          r.decisions;
  }

  decision-Refines :
      checked_add (count_of s.diagnostic_counts decisions_family) (pos 1) ≡ some n
      → Refines
          (record h { decisions = h.decisions ++ payload ∷ [] })
          (refresh_completeness (counted decisions_family payload n (push_decision s payload)))
  unfolding refresh_completeness
  decision-Refines next = record {
    events = rw (count_of-put_count decisions_family n s.diagnostic_counts events_family) r.events;
    attempts =
        rw (count_of-put_count decisions_family n s.diagnostic_counts attempts_family) r.attempts;
    decisions =
        rw (count_of-put_count decisions_family n s.diagnostic_counts decisions_family)
          (StandsFor-push _ n s.compaction_decisions h.decisions payload r.decisions next);
  }

  IsCached-Refines :
      (family : String) (t : Session)
      → checked_add (count_of s.diagnostic_counts family) (pos 1) ≡ some n
      → IsCached s family payload t
      → Refines (recorded family payload h) (refresh_completeness (counted family payload n t))
  IsCached-Refines family t next (event text e f same) =
      rw (e, f, same) (event-Refines text (rw e at next))
  IsCached-Refines family t next (attempt e same) =
      rw (e, same)
        (attempt-Refines (with_attempt s payload) (with_attempt-SameCaches s payload)
          (rw e at next))
  IsCached-Refines family t next (decision e same) = rw (e, same) (decision-Refines (rw e at next))

append-Refines :
    (h : History) (s s' : Session) (family : String) (payload : Value)
    → Refines h s
    → append s family payload ≡ ok s'
    → Refines (recorded family payload h) s'
append-Refines h s s' family payload r e =
    let a = append-IsAppended s family payload s' e in
    rw (a.after) (IsCached-Refines h s payload a.ordinal r family a.between a.next a.kept)

none_cached : {A : Type 0} (cache entries : List A) → StandsFor (pos 0) cache entries → cache ≡ []
none_cached cache [] (count, same) = same
none_cached cache (x ∷ xs) (count, same) = let n : 0 ≡ length (x ∷ xs) = cc in absurd (omega arith)

no_counts : (l : List (String × ℤ)) → is_empty l ≡ true → l ≡ []
no_counts [] e = refl
no_counts (x ∷ l) e = cc

-- A snapshot without counters that stands for a history has no entries.
stage-Refines : (h : History) (s s' : Session) → Refines h s → stage s ≡ ok s' → Refines h s'
unfolding stage append_all count_of
stage-Refines h s s' r e = elim (Bool-cases (is_empty s.diagnostic_counts)) [
  | inr journalled ↦ let same : s ≡ s' = cc (rw journalled at e) in rw (← same) r
  | inl new ↦
      let counts = no_counts s.diagnostic_counts new in
      let a : s.compaction_events ≡ [] = none_cached _ h.events (rw counts at r.events) in
      let b : s.compaction_attempts ≡ [] = none_cached _ h.attempts (rw counts at r.attempts) in
      let c : s.compaction_decisions ≡ [] = none_cached _ h.decisions (rw counts at r.decisions) in
      let same : emptied s ≡ s' = cc (rw (new, a, b, c) at e) in
      rw (← same) (record {
        events = (r.events.0, sym a ∙ r.events.1);
        attempts = (r.attempts.0, sym b ∙ r.attempts.1);
        decisions = (r.decisions.0, sym c ∙ r.decisions.1);
      })
]

-- If a session stands for a history of entries, each counter being the number of the entries of its
-- family and each cache the last 32 of them, and a diagnostic entry is recorded, then the session
-- stands for the history with this entry.
pub record_diagnostic-Refines :
    (h : History) (s s' : Session) (family : String) (payload : Value)
    → Refines h s
    → record_diagnostic s family payload ≡ ok s'
    → Refines (recorded family payload h) s'
unfolding record_diagnostic
record_diagnostic-Refines h s s' family payload r e =
    let (_, known, e') =
      >>=-eq-ok (require (contains_text families family) (unknown_family family)) _ e in
    let (_, summary, e'') =
      >>=-eq-ok
        (require (not (str_eq family events_family && not (is_string payload))) Fault.not_summary) _
        e' in
    let (t, staged, appended) = >>=-eq-ok (stage s) (λ t. append t family payload) e'' in
    append-Refines h t s' family payload (stage-Refines h s t r staged) appended
