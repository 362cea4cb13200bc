-- ===== src/Session.antt =====
-- agent-rust/src/engine.rs: the durable state of a session, `Message`, `TranscriptEntry`, `Workflow`
-- and `Session`, with the methods of `Session` and `wire_message` of agent-rust/src/context.rs.
-- `Session` leaves out what no modelled operation reads or writes: the connection pool, hashes of the
-- configuration, retention, and the fields of a compaction attempt.
pub mod Kept
pub mod Sample
pub mod Sequence
mod Tests
use state_driven_agent.Common.{
  ℕ, String, Bool, true, false, ◌||◌, Option, none, some, List, [], ◌∷◌, ◌++◌, if◌then◌else◌,
  str_eq, is_empty, map, is_some_and, find, not,
}
use state_driven_agent.Common.Int.{ℤ, pos, ltb_ℤ, add64}
use state_driven_agent.Json.{Value, str, null, object, as_array, is_null}

pub record Message : Type 0 where
  pub message_id : Option String
  pub sequence : Option ℤ
  pub created_at : Option String
  pub role : String
  pub content : Option String
  pub name : Option String
  pub tool_call_id : Option String
  pub tool_calls : Option Value

pub record TranscriptEntry : Type 0 where
  pub sequence : ℤ
  pub message_id : String
  pub kind : String
  pub payload : Value
  pub run_id : Option String
  pub decision_step : ℤ
  pub created_at : String

pub record Transition : Type 0 where
  pub from_phase : String
  pub to_phase : String
  pub reason : String

pub record Workflow : Type 0 where
  pub active_phase : Option String
  pub completed_phases : List String
  pub observed_evidence : List String
  pub transitions : List Transition

-- `diagnostics::Record`
pub record Record : Type 0 where
  pub family : String
  pub ordinal : ℤ
  pub payload : Value

pub record Session : Type 0 where
  pub id : String
  pub goal : String
  pub command : Option Value
  pub run_command_id : Option String
  pub needs_reload : Bool
  pub revision : ℤ
  pub execution_owner : Option String
  pub execution_fence : Option ℤ
  pub next_transcript_sequence : ℤ
  pub pending_transcript : List TranscriptEntry
  pub memory : List Message
  pub compacted_context : Option String
  pub committed_summaries : List String
  pub compaction_events : List String
  pub compaction_attempts : List Value
  pub compaction_decisions : List Value
  pub diagnostic_counts : List (String × ℤ)
  pub diagnostics_complete : Bool
  pub diagnostic_rejections : ℤ
  pub compaction_savings_total : ℤ
  pub compaction_savings_known : Bool
  pub diagnostics_pending : List Record
  pub last_compaction_step : ℤ
  pub last_compaction_estimated_tokens : Option ℤ
  pub workflow : Option Workflow
  pub step_count : ℤ
  pub run_count : ℤ
  pub run_id : Option String
  pub run_started_at : Option String
  pub run_ended_at : Option String
  pub run_termination_reason : Option String
  pub status : String
  pub run_status : String
  pub final_answer : Option String
  pub last_error : Option Value
  pub consecutive_invalid_responses : ℕ
  pub model_request_diagnostics : List Value
  pub executions : List Value
  pub pending_execution_outbox : List Value
  pub attempts_pending : List Value
  pub completion_artifacts : Value
  pub no_progress_steps : ℕ
  pub progress_fingerprint : Option String
  pub progress_seen_outputs : List String
  pub pending_tool_calls : List Value
  pub pending_tool_phase : Option String

-- `CheckpointAck`
pub record Receipt : Type 0 where
  pub needs_reload : Bool
  pub revision : ℤ
  pub next_sequence : ℤ
  pub memory : List Message
  pub summaries : List String

abbrev entry_of {ℓ} : {A : Type ℓ} → String → Option A → (A → Value) → List (String × Value)
entry_of k none f = []
entry_of k (some a) f = (k, f a) ∷ []

-- The calls that go on the wire: none for a null, and none for an empty list.
wire_calls : Option Value → List (String × Value)
wire_calls none = []
wire_calls (some v) =
    if is_null v || is_some_and (as_array v) is_empty then [] else ("tool_calls", v) ∷ []

unfoldable pub wire_message : Message → Value
unfolding wire_calls
wire_message m = object (
    ("role", str m.role)
    ∷ (entry_of "content" m.content str
        ++ (entry_of "name" m.name str
            ++ (entry_of "tool_call_id" m.tool_call_id str ++ wire_calls m.tool_calls))))

-- `id` is the fresh UUID and `now` the time stamp that the call draws.
unfoldable pub archive_record : Session → String → String → String → Value → Session
archive_record s id now kind payload = record s {
  pending_transcript = s.pending_transcript ++ entry ∷ [];
  next_transcript_sequence = add64 s.next_transcript_sequence (pos 1);
}
  where
    entry : TranscriptEntry
    entry = record {
      sequence = s.next_transcript_sequence;
      message_id = id;
      kind = kind;
      payload = payload;
      run_id = s.run_id;
      decision_step = s.step_count;
      created_at = now;
    }

abbrev pub max_ℤ : ℤ → ℤ → ℤ
max_ℤ a b = if ltb_ℤ a b then b else a

unfoldable pub append_message : Session → String → String → Message → Session
append_message s id now message = record s {
  next_transcript_sequence = add64 sequence (pos 1);
  pending_transcript = s.pending_transcript ++ entry ∷ [];
  memory = s.memory ++ stamped ∷ [];
}
  where
    sequence : ℤ
    sequence = max_ℤ s.next_transcript_sequence (pos 1)

    stamped : Message
    stamped = record message {
      message_id = some id;
      sequence = some sequence;
      created_at = some now;
    }

    entry : TranscriptEntry
    entry = record {
      sequence = sequence;
      message_id = id;
      kind = "message";
      payload = wire_message stamped;
      run_id = if str_eq s.run_status "running" then s.run_id else none;
      decision_step = s.step_count;
      created_at = now;
    }

unfoldable pub reset_resume_counters : Session → Session
reset_resume_counters s = record s {
  consecutive_invalid_responses = 0;
  no_progress_steps = 0;
  progress_fingerprint = none;
  last_error = none;
}

abbrev same_id : Option String → Option String → Bool
same_id none none = true
same_id (some a) (some b) = str_eq a b
same_id _ _ = false

-- A message takes the sequence and the time that the receipt has for its identity.
stamp_from : List Message → Message → Message
stamp_from saved m = elim (find (λ x. same_id x.message_id m.message_id) saved) [
  | none ↦ m
  | some x ↦ record m { sequence = x.sequence; created_at = x.created_at }
]

unfoldable pub acknowledge_checkpoint : Option Receipt → Session → Session
unfolding stamp_from
acknowledge_checkpoint none s = s
acknowledge_checkpoint (some r) s = record s {
  needs_reload = r.needs_reload;
  revision = r.revision;
  next_transcript_sequence = r.next_sequence;
  memory = map (stamp_from r.memory) s.memory;
  committed_summaries = r.summaries;
}

abbrev pub clear_outboxes : Session → Session
clear_outboxes s = record s {
  pending_transcript = [];
  pending_execution_outbox = [];
  attempts_pending = [];
  diagnostics_pending = [];
}

unfoldable pub acknowledge_committed_outboxes : Option Receipt → Session → Session
unfolding acknowledge_checkpoint
acknowledge_committed_outboxes receipt s = clear_outboxes (acknowledge_checkpoint receipt s)

-- `msg`
abbrev pub msg : String → Option String → Message
msg role content = record {
  message_id = none;
  sequence = none;
  created_at = none;
  role = role;
  content = content;
  name = none;
  tool_call_id = none;
  tool_calls = none;
}
