-- ===== src/Decision/Foreign.antt =====
-- The identities of the calls of a decision of agent-rust/src/engine.rs against those of a conversation.
use state_driven_agent.Common.{
  String, false, Option, none, some, List, [], ◌∷◌, ◌++◌, ◌≡◌, ◌≢◌, refl, arith, eq_iff, All,
  contains_text, contains_text-concat, or_else,
}
use state_driven_agent.Json.{Value, get_str, as_array, ◌and_then◌}
use state_driven_agent.Json.Host.{Host}
use state_driven_agent.Config.{Config}
use state_driven_agent.Session.{Message}
use state_driven_agent.Decision.{ids_of, id_of, answered_id, message_ids, ids_in, call_value}
use state_driven_agent.Decision.Calls.{AreCalls, no_calls, call}

-- A message that neither makes a call with this identity nor answers one.
pub record IsForeign (id : String) (m : Message) : Type 0 where
  pub answers_other : m.tool_call_id ≢ some id
  pub calls_other :
      (v : Value) (calls : List Value)
      → m.tool_calls ≡ some v
      → as_array v ≡ some calls
      → All (λ c. get_str "id" c ≢ some id) calls

-- The calls of a decision: one for each raw call in order, each with an identity that no message of the
-- conversation has, and no call before it.
pub data AreFresh (host : Host) (config : Config) (memory : List Message)
    : List String → List Value → List Value → Type 0 where
  no_more : (before : List String) → AreFresh host config memory before [] []
  fresh :
      (before : List String) (raw : Value) (raws : List Value) (id : String) (calls : List Value)
      → All (IsForeign id) memory
      → contains_text before id ≡ false
      → AreFresh host config memory (before ++ id ∷ []) raws calls
      → AreFresh host config memory before (raw ∷ raws) (call_value host config raw id ∷ calls)

contains_text-append :
    (xs ys : List String) (x : String)
    → contains_text (xs ++ ys) x ≡ false
    → (contains_text xs x ≡ false) × (contains_text ys x ≡ false)
contains_text-append [] ys x h = (refl, h)
contains_text-append (y ∷ xs) ys x h = ground (arith, contains_text-append xs ys x)

answered_id-ne :
    (o : Option String) (id : String) → contains_text (answered_id o) id ≡ false → o ≢ some id
answered_id-ne none id h e = cc
answered_id-ne (some x) id h e = ground (arith, eq_iff x id)

id_of-ne :
    (o : Option String) (id : String)
    → contains_text (elim o [ some x ↦ x ∷ [] | none ↦ [] ]) id ≡ false
    → o ≢ some id
id_of-ne none id h e = cc
id_of-ne (some x) id h e = ground (arith, eq_iff x id)

ids_of-ne :
    (calls : List Value) (id : String)
    → contains_text (ids_of calls) id ≡ false
    → All (λ c. get_str "id" c ≢ some id) calls
ids_of-ne [] id h = tt
ids_of-ne (c ∷ calls) id h =
    let (one, others) = contains_text-append (id_of c) (ids_of calls) id h in
    (id_of-ne (get_str "id" c) id one, ids_of-ne calls id others)

message_ids-IsForeign :
    (m : Message) (id : String) → contains_text (message_ids m) id ≡ false → IsForeign id m
message_ids-IsForeign m id h =
    let (made, answered) =
      contains_text-append (ids_of (or_else (m.tool_calls and_then as_array) []))
        (answered_id m.tool_call_id) id h in
    record {
      answers_other = answered_id-ne m.tool_call_id id answered;
      calls_other = λ v calls e k. ids_of-ne calls id (rw (e, k) at made);
    }

pub ids_in-IsForeign :
    (ms : List Message) (id : String) → contains_text (ids_in ms) id ≡ false → All (IsForeign id) ms
ids_in-IsForeign [] id h = tt
ids_in-IsForeign (m ∷ ms) id h =
    let (one, others) = contains_text-append (message_ids m) (ids_in ms) id h in
    (message_ids-IsForeign m id one, ids_in-IsForeign ms id others)

module _ (host : Host) (config : Config) (memory : List Message) where
  -- What is not used is new to the conversation and to the calls before.
  unfoldable pub Covers : List String → List String → Type 0
  Covers used before =
      (id : String)
      → contains_text used id ≡ false
      → All (IsForeign id) memory × (contains_text before id ≡ false)

  Covers-concat :
      (used before : List String) (id : String)
      → Covers used before
      → Covers (used ++ id ∷ []) (before ++ id ∷ [])
  unfolding Covers
  Covers-concat used before id c x h =
      let (old, new) = contains_text-append used (id ∷ []) x h in
      let (foreign, other) = c x old in (foreign, ground (arith, contains_text-concat before id x))

  pub AreCalls-AreFresh :
      (used before : List String) (raws calls : List Value)
      → Covers used before
      → AreCalls host config used raws calls
      → AreFresh host config memory before raws calls
  unfolding Covers
  AreCalls-AreFresh used before raws calls c (no_calls _) = no_more before
  AreCalls-AreFresh used before raws calls c (call _ r rs id more new later) =
      fresh before r rs id more (c id new).0 (c id new).1 (
        AreCalls-AreFresh (used ++ id ∷ []) (before ++ id ∷ []) rs more
          (Covers-concat used before id c) later)
