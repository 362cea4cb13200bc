-- ===== src/Diagnostics/Tests.antt =====
-- One recorded compaction decision of a new session.
use state_driven_agent.Common.{[], ◌∷◌, ◌≡◌, refl, ok, inl}
use state_driven_agent.Common.Int.{pos}
use state_driven_agent.Common.Int.{checked_add}
use state_driven_agent.Json.{nat}
use state_driven_agent.Session.{Session}
use state_driven_agent.Session.Sample.{blank}
use state_driven_agent.Diagnostics.{
  append, count_of, put_count, record_diagnostic, decisions_family,
}
use state_driven_agent.Diagnostics.Refined
use state_driven_agent.Diagnostics.Refined.{History, Refines, record_diagnostic-Refines}
use state_driven_agent.Diagnostics.Journal.{IsJournal, record_diagnostic-IsJournal}

abbrev recorded : Session
recorded = record blank {
  compaction_decisions = nat 7 ∷ [];
  diagnostic_counts = (decisions_family, pos 1) ∷ [];
  diagnostics_pending = record { family = decisions_family; ordinal = pos 1; payload = nat 7 } ∷ [];
}

record_test : record_diagnostic blank decisions_family (nat 7) ≡ ok recorded
unfolding record_diagnostic append checked_add count_of put_count
record_test = refl

record_diagnostic-IsJournal_example : IsJournal recorded
record_diagnostic-IsJournal_example =
    record_diagnostic-IsJournal blank recorded decisions_family (nat 7) (inl refl) record_test

abbrev no_entries : History
no_entries = record { events = []; attempts = []; decisions = [] }

blank-Refines : Refines no_entries blank
unfolding count_of
blank-Refines = record { events = (refl, refl); attempts = (refl, refl); decisions = (refl, refl) }

record_diagnostic-Refines_example :
    Refines (Refined.recorded decisions_family (nat 7) no_entries) recorded
record_diagnostic-Refines_example =
    record_diagnostic-Refines no_entries blank recorded decisions_family (nat 7) blank-Refines
      record_test
