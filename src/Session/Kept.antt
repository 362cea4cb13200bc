-- ===== src/Session/Kept.antt =====
-- What a step of agent-rust/src/engine.rs leaves of a session: the conversation, but for what the store
-- stamps on its messages, and the calls that are pending.
use state_driven_agent.Common.{
  ℕ, String, Option, none, some, List, [], ◌∷◌, ◌++◌, map, ◌≡◌, refl, ap, find,
}
use state_driven_agent.Json.{Value}
use state_driven_agent.Common.Int.{ℤ}
use state_driven_agent.Session.{
  Message, Session, Receipt, same_id, stamp_from, acknowledge_checkpoint, append_message,
}

abbrev pub unstamped : Message → Message
unstamped m = record m { message_id = none; sequence = none; created_at = none }

abbrev pub conversation : List Message → List Message
conversation ms = map unstamped ms

-- The parts that are kept.
abbrev pub kept : Session → (List Message × List Value) × (Option String × ℤ)
kept s = ((conversation s.memory, s.pending_tool_calls), (s.pending_tool_phase, s.step_count))

abbrev pub Kept : Session → Session → Type 0
Kept s t = kept t ≡ kept s

-- What a checkpoint keeps besides.
abbrev pub held :
    Session → ((List Message × List Value) × (Option String × ℤ)) × (String × (ℕ × Option String))
held s = (kept s, (s.status, (s.no_progress_steps, s.progress_fingerprint)))

abbrev pub Held : Session → Session → Type 0
Held s t = held t ≡ held s

unstamped-stamp_from :
    (saved : List Message) (m : Message) → unstamped (stamp_from saved m) ≡ unstamped m
unfolding stamp_from
unstamped-stamp_from saved m = go (find (λ x. same_id x.message_id m.message_id) saved)
  where
    go :
        (o : Option Message)
        → unstamped (elim o [
          | none ↦ m
          | some x ↦ record m { sequence = x.sequence; created_at = x.created_at }
        ])
          ≡ unstamped m
    go none = refl
    go (some x) = refl

conversation-stamp_from :
    (saved ms : List Message) → conversation (map (stamp_from saved) ms) ≡ conversation ms
conversation-stamp_from saved [] = refl
conversation-stamp_from saved (m ∷ ms) =
    rw (unstamped-stamp_from saved m, conversation-stamp_from saved ms) refl

pub acknowledge-Held :
    (receipt : Option Receipt) (s : Session) → Held s (acknowledge_checkpoint receipt s)
unfolding acknowledge_checkpoint
acknowledge-Held none s = refl
acknowledge-Held (some r) s =
    ap
      (λ c. (
        ((c, s.pending_tool_calls), (s.pending_tool_phase, s.step_count)),
        (s.status, (s.no_progress_steps, s.progress_fingerprint)),
      ))
      (conversation-stamp_from r.memory s.memory)

pub conversation-append_message :
    (s : Session) (id now : String) (m : Message)
    → conversation (append_message s id now m).memory ≡ conversation s.memory ++ unstamped m ∷ []
unfolding append_message
conversation-append_message s id now m = go _ s.memory
  where
    go :
        (x : Message) (ms : List Message)
        → map unstamped (ms ++ x ∷ []) ≡ map unstamped ms ++ unstamped x ∷ []
    go x [] = refl
    go x (y ∷ ms) = ap (λ t. unstamped y ∷ t) (go x ms)

pub acknowledge-Kept :
    (receipt : Option Receipt) (s : Session) → Kept s (acknowledge_checkpoint receipt s)
acknowledge-Kept receipt s = ap (λ x. x.0) (acknowledge-Held receipt s)
