-- ===== src/Session/Tests.antt =====
-- The first sequence numbers of a session.
use state_driven_agent.Common.{some, refl, arith}
use state_driven_agent.Json.{null}
use state_driven_agent.Session.{append_message, archive_record, msg}
use state_driven_agent.Session.Sample.{blank}
use state_driven_agent.Session.Sequence.{
  IsSequenced, append_message-IsSequenced, archive_record-IsSequenced,
}

blank-IsSequenced : IsSequenced blank
blank-IsSequenced = record { next = 1; is_next = refl; positive = omega arith; rising = tt }

append_message-IsSequenced_example :
    IsSequenced (append_message blank "m1" "now" (msg "user" (some "Go.")))
unfolding blank-IsSequenced
append_message-IsSequenced_example =
    append_message-IsSequenced blank "m1" "now" (msg "user" (some "Go.")) blank-IsSequenced
      (omega arith)

archive_record-IsSequenced_example :
    IsSequenced (archive_record blank "a1" "now" "tool_intent" null)
unfolding blank-IsSequenced
archive_record-IsSequenced_example =
    archive_record-IsSequenced blank "a1" "now" "tool_intent" null blank-IsSequenced (omega arith)
