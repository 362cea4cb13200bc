-- ===== src/Diagnostics.antt =====
-- agent-rust/src/diagnostics.rs: the append-only record of compactions. Each family has a counter, a
-- cache of its most recent entries, and an outbox of entries that the next commit stores.
-- The families are the source's texts; a `BTreeMap` of counters is an association list.
pub mod Appended
pub mod Journal
pub mod Kept
pub mod Refined
mod Tests
use Prim.Native.Nat.{Ordering}
use Prim.Native.String
use state_driven_agent.Common.{
  ℕ, zero, suc, ◌+◌, ◌-◌, String, Bool, true, false, not, ◌&&◌, ◌||◌, Option, none, some, List, [],
  ◌∷◌, ◌++◌, if◌then◌else◌, str_eq, is_empty, any, all, contains_text, length, drop, ltb, leb, ◌==◌,
  Result, ok, err, ◌>>=◌, ◌>>◌, require, ok_or, or_else, map, enumerate_from, is_none,
}
use state_driven_agent.Common.Int.{
  ℤ, pos, negsuc, ltb_ℤ, eqb_ℤ, add64, ◌+ℤ◌, ◌-ℤ◌, checked_add, checked_sub, pos_part,
}
use state_driven_agent.Json.{Value, bool, str, index, as_str, as_i64, ◌and_then◌}
use state_driven_agent.Json.Host.{Host}
use state_driven_agent.Json.Equal.{value_eq}
use state_driven_agent.Session.{Session, Record}

-- `RECENT`
abbrev pub recent_limit : ℕ
recent_limit = 32

abbrev pub events_family : String
events_family = "compaction_events"

abbrev pub attempts_family : String
attempts_family = "compaction_attempts"

abbrev pub decisions_family : String
decisions_family = "compaction_decisions"

-- `FAMILIES`
abbrev pub families : List String
families = events_family ∷ attempts_family ∷ decisions_family ∷ []

pub data Fault : Type 0 where
  ordinal_overflow invalid_event not_summary legacy_differs unknown_counter invalid_archived : Fault
  unknown_family gap : String → Fault
  counter_differs : String → ℤ → ℤ → Fault

-- `counts.get(family).copied().unwrap_or(0)`
unfoldable pub count_of : List (String × ℤ) → String → ℤ
count_of [] family = pos 0
count_of ((k, n) ∷ counts) family = if str_eq k family then n else count_of counts family

unfoldable pub put_count : String → ℤ → List (String × ℤ) → List (String × ℤ)
put_count family n [] = (family, n) ∷ []
put_count family n ((k, m) ∷ counts) =
    if str_eq k family then (k, n) ∷ counts else (k, m) ∷ put_count family n counts

unfoldable pub trim {ℓ} : {A : Type ℓ} → List A → List A
trim items =
    if ltb recent_limit (length items) then drop (length items - recent_limit) items else items

-- `v == true`
abbrev pub is_true : Value → Bool
is_true (bool true) = true
is_true v = false

counts_cache : List (String × ℤ) → String → ℕ → Bool
counts_cache counts family n = eqb_ℤ (count_of counts family) (pos n)

unfoldable pub refresh_completeness : Session → Session
unfolding counts_cache
refresh_completeness s = record s {
  diagnostics_complete =
      counts_cache s.diagnostic_counts events_family (length s.compaction_events)
      && counts_cache s.diagnostic_counts attempts_family (length s.compaction_attempts)
      && counts_cache s.diagnostic_counts decisions_family (length s.compaction_decisions);
}

-- The tokens that an accepted attempt saved, as far as it says.
reduction_of : Value → Option ℤ
reduction_of payload = elim (as_i64 (index "reduction_tokens" payload)) [
  | some n ↦ some n
  | none ↦ as_i64 (index "before_estimated_tokens" payload) and_then λ before.
      as_i64 (index "after_estimated_tokens" payload) and_then λ after. checked_sub before after
]

with_savings : Session → Option ℤ → Session
with_savings s (some n) = record s { compaction_savings_total = add64 s.compaction_savings_total n }
with_savings s none = record s { compaction_savings_known = false }

pub with_attempt : Session → Value → Session
unfolding with_savings reduction_of
with_attempt s payload =
    if not (is_true (index "accepted" payload))
    then record s { diagnostic_rejections = add64 s.diagnostic_rejections (pos 1) }
    else with_savings s (reduction_of payload)

with_event : Session → Option String → Result Fault Session
unfolding trim
with_event s none = err invalid_event
with_event s (some text) =
    ok (record s { compaction_events = trim (s.compaction_events ++ text ∷ []) })

abbrev push_attempt : Session → Value → Session
push_attempt s payload = record s {
  compaction_attempts = trim (s.compaction_attempts ++ payload ∷ []);
}

abbrev push_decision : Session → Value → Session
push_decision s payload = record s {
  compaction_decisions = trim (s.compaction_decisions ++ payload ∷ []);
}

-- The entry in its family's cache.
cached : Session → String → Value → Result Fault Session
unfolding with_event with_attempt trim
cached s family payload =
    if str_eq family events_family
    then with_event s (as_str payload)
    else if str_eq family attempts_family
    then ok (push_attempt (with_attempt s payload) payload)
    else if str_eq family decisions_family
    then ok (push_decision s payload)
    else err (unknown_family family)

-- The counter and the outbox behind a cached entry.
abbrev counted : String → Value → ℤ → Session → Session
counted family payload ordinal s = record s {
  diagnostic_counts = put_count family ordinal s.diagnostic_counts;
  diagnostics_pending =
      s.diagnostics_pending
      ++ record { family = family; ordinal = ordinal; payload = payload } ∷ [];
}

unfoldable pub append : Session → String → Value → Result Fault Session
unfolding cached refresh_completeness
append s family payload =
    ok_or (checked_add (count_of s.diagnostic_counts family) (pos 1)) ordinal_overflow
    >>= λ ordinal. cached s family payload >>= λ t.
        ok (refresh_completeness (counted family payload ordinal t))

append_all : String → List Value → Session → Result Fault Session
append_all family [] s = ok s
append_all family (v ∷ vs) s = append s family v >>= append_all family vs

abbrev count_accepted : List Value → ℕ
count_accepted [] = 0
count_accepted (v ∷ vs) =
    let rest = count_accepted vs in if is_true (index "accepted" v) then suc rest else rest

-- The session of `stage` before it appends: its caches taken out.
abbrev emptied : Session → Session
emptied s = record s {
  compaction_events = [];
  compaction_attempts = [];
  compaction_decisions = [];
  diagnostic_rejections = pos 0;
  compaction_savings_total = pos 0;
  compaction_savings_known = count_accepted s.compaction_attempts == length s.compaction_events;
}

-- Journals a snapshot that has no counters, once.
unfoldable pub stage : Session → Result Fault Session
unfolding append_all
stage s =
    if not (is_empty s.diagnostic_counts)
    then ok s
    else append_all events_family (map str s.compaction_events) (emptied s)
      >>= append_all attempts_family s.compaction_attempts
      >>= append_all decisions_family s.compaction_decisions

abbrev is_string : Value → Bool
is_string v = not (is_none (as_str v))

-- `record`
unfoldable pub record_diagnostic : Session → String → Value → Result Fault Session
unfolding stage
record_diagnostic s family payload = do
  require (contains_text families family) (unknown_family family)
  require (not (str_eq family events_family && not (is_string payload))) not_summary
  t ← stage s
  append t family payload

-- `Record`s compare by their three fields.
record_eq : Host → Record → Record → Bool
record_eq host a b =
    str_eq a.family b.family && eqb_ℤ a.ordinal b.ordinal && value_eq host a.payload b.payload

records_eq : Host → List Record → List Record → Bool
unfolding record_eq
records_eq host [] [] = true
records_eq host (a ∷ as') (b ∷ bs) = record_eq host a b && records_eq host as' bs
records_eq host _ _ = false

-- `(&a.family, a.ordinal)` before or at `(&b.family, b.ordinal)`
record_le : Record → Record → Bool
record_le a b = elim (String.compare a.family b.family) [
  | Ordering.lt ↦ true
  | Ordering.gt ↦ false
  | Ordering.eq ↦ not (ltb_ℤ b.ordinal a.ordinal)
]

abbrev insert_record : Record → List Record → List Record
unfolding record_le
insert_record r [] = r ∷ []
insert_record r (x ∷ xs) =
    let later = x ∷ insert_record r xs in if record_le r x then r ∷ x ∷ xs else later

-- The stable `sort_by` of the outbox.
sort_records : List Record → List Record
unfolding record_le
sort_records [] = []
sort_records (r ∷ rs) = insert_record r (sort_records rs)

-- The stored records of one family, in the order that they have.
abbrev pub rows_of : String → List Record → List Record
rows_of family [] = []
rows_of family (r ∷ rs) =
    let rest = rows_of family rs in if str_eq r.family family then r ∷ rest else rest

-- Whether the ordinals count up to the expected one: `retained` of them are there.
ordinals_from : ℤ → List (ℕ × Record) → Bool
ordinals_from first [] = true
ordinals_from first ((i, r) ∷ rs) =
    eqb_ℤ r.ordinal (first +ℤ pos i +ℤ pos 1) && ordinals_from first rs

abbrev payloads : List Record → List Value
payloads [] = []
payloads (r ∷ rs) = r.payload ∷ payloads rs

texts_of : List Record → Option (List String)
texts_of [] = some []
texts_of (r ∷ rs) = as_str r.payload and_then λ t. texts_of rs and_then λ ts. some (t ∷ ts)

-- `skip(rows.len().saturating_sub(RECENT))`
abbrev recent_rows : List Record → List Record
recent_rows rows = drop (length rows - recent_limit) rows

restored : Session → String → List Record → Result Fault Session
unfolding texts_of
restored s family rows =
    if str_eq family events_family
    then (ok_or (texts_of rows) invalid_archived >>= λ texts.
        ok (record s { compaction_events = s.compaction_events ++ texts }))
    else if str_eq family attempts_family
    then ok (record s { compaction_attempts = s.compaction_attempts ++ payloads rows })
    else ok (record s { compaction_decisions = s.compaction_decisions ++ payloads rows })

abbrev retained_rows : Bool → ℤ → ℕ
retained_rows legacy expected =
    if legacy
    then pos_part expected
    else if ltb recent_limit (pos_part expected)
    then recent_limit
    else pos_part expected

-- One round of the loop of `hydrate` over the families.
restore_family : Bool → List Record → List (String × ℤ) → String → Session → Result Fault Session
unfolding restored ordinals_from
restore_family legacy records counts family s = do
  let expected = count_of s.diagnostic_counts family
  let actual = count_of counts family
  let rows = rows_of family records
  let retained = retained_rows legacy expected
  require (not (ltb_ℤ expected (pos 0)) && eqb_ℤ actual expected)
      (counter_differs family expected actual)
  require
      (length rows == retained && ordinals_from (expected -ℤ pos retained) (enumerate_from 0 rows))
      (gap family)
  restored s family (recent_rows rows)

unknown_counters : List (String × ℤ) → Bool
unknown_counters counts = any (λ (k, n). not (contains_text families k)) counts

abbrev cleared : Session → Session
cleared s = record s { compaction_events = []; compaction_attempts = []; compaction_decisions = [] }

-- A snapshot with no counters is journalled first, and must agree with the stored records.
validated : Host → Session → List Record → Result Fault Session
unfolding stage records_eq sort_records
validated host s records =
    if not (is_empty s.diagnostic_counts)
    then ok s
    else (stage s >>= λ t.
        require (records_eq host (sort_records t.diagnostics_pending) records) legacy_differs
        >>= λ _. ok t)

unfoldable pub hydrate : Host → Session → List Record → List (String × ℤ) → Result Fault Session
unfolding validated unknown_counters restore_family refresh_completeness
hydrate host s records counts = do
  let legacy = is_empty s.diagnostic_counts
  t ← validated host s records
  require (not (unknown_counters t.diagnostic_counts)) unknown_counter
  a ← restore_family legacy records counts events_family (cleared t)
  b ← restore_family legacy records counts attempts_family a
  c ← restore_family legacy records counts decisions_family b
  ok (refresh_completeness (record c { diagnostics_pending = [] }))
