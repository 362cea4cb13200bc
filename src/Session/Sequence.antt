-- ===== src/Session/Sequence.antt =====
-- The sequence numbers that `append_message` and `archive_record` of agent-rust/src/engine.rs draw.
use state_driven_agent.Common.{
  ℕ, ◌+◌, ◌≤◌, ◌<◌, ◌^◌, String, true, List, [], ◌∷◌, ◌++◌, ◌≡◌, ap, ◌∙◌, arith, All, All-append,
}
use state_driven_agent.Common.Int.{ℤ, pos, ltb_ℤ, add64, add64_in_range}
use state_driven_agent.Json.{Value}
use state_driven_agent.Session.{
  TranscriptEntry, Message, Session, append_message, archive_record, max_ℤ,
}

-- The pending entries have increasing sequence numbers, all of them before the next one.
abbrev pub Rising : List TranscriptEntry → ℕ → Type 0
Rising [] next = Unit {0}
Rising (e ∷ es) next =
    All (λ x. ltb_ℤ e.sequence x.sequence ≡ true) es
    × (ltb_ℤ e.sequence (pos next) ≡ true)
    × Rising es next

pub record IsSequenced (s : Session) : Type 0 where
  pub next : ℕ
  pub is_next : s.next_transcript_sequence ≡ pos next
  pub positive : 1 ≤ next
  pub rising : Rising s.pending_transcript next

ltb-step : (a : ℤ) (n : ℕ) → ltb_ℤ a (pos n) ≡ true → ltb_ℤ a (pos (n + 1)) ≡ true
ltb-step a n h = ground arith

Rising-concat :
    (es : List TranscriptEntry) (next : ℕ) (e : TranscriptEntry)
    → Rising es next
    → e.sequence ≡ pos next
    → Rising (es ++ e ∷ []) (next + 1)
Rising-concat [] next e h q = (tt, rw q (ground arith), tt)
Rising-concat (x ∷ es) next e h q = (
  All-append (λ y. ltb_ℤ x.sequence y.sequence ≡ true) es (e ∷ []) h.0 (rw q h.1, tt),
  ltb-step x.sequence next h.1,
  Rising-concat es next e h.2 q,
)

larger_one : (n : ℕ) → 1 ≤ n → max_ℤ (pos n) (pos 1) ≡ pos n
larger_one n h = ground arith

-- From a session whose pending transcript entries have increasing sequence numbers, all of them
-- before the next one, which is positive and whose successor fits an i64, appending a message leads
-- to such a session.
pub append_message-IsSequenced :
    (s : Session) (id now : String) (m : Message)
    → (v : IsSequenced s) → v.next + 1 < 2 ^ 63
    → IsSequenced (append_message s id now m)
unfolding append_message
append_message-IsSequenced s id now m v h =
    let same : max_ℤ s.next_transcript_sequence (pos 1) ≡ pos v.next =
      ap (λ n. max_ℤ n (pos 1)) v.is_next ∙ larger_one v.next v.positive in
    record {
      next = v.next + 1;
      is_next = ap (λ n. add64 n (pos 1)) same ∙ add64_in_range v.next h;
      positive = omega arith;
      rising = Rising-concat s.pending_transcript v.next _ v.rising same;
    }

-- From a session whose pending transcript entries have increasing sequence numbers, all of them
-- before the next one, which is positive and whose successor fits an i64, archiving a record leads
-- to such a session.
pub archive_record-IsSequenced :
    (s : Session) (id now kind : String) (payload : Value)
    → (v : IsSequenced s) → v.next + 1 < 2 ^ 63
    → IsSequenced (archive_record s id now kind payload)
unfolding archive_record
archive_record-IsSequenced s id now kind payload v h = record {
  next = v.next + 1;
  is_next = ap (λ n. add64 n (pos 1)) v.is_next ∙ add64_in_range v.next h;
  positive = omega arith;
  rising = Rising-concat s.pending_transcript v.next _ v.rising v.is_next;
}
