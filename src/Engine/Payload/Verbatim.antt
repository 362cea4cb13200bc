-- ===== src/Engine/Payload/Verbatim.antt =====
-- What the messages of a decision of agent-rust/src/engine.rs consist of.
use state_driven_agent.Common.{
  ℕ, String, Option, none, some, List, [], ◌∷◌, ◌++◌, ◌≡◌, refl, All, All-append, drop,
  enumerate_from, ◌+++◌,
}
use state_driven_agent.Json.{Value}
use state_driven_agent.Json.Host.{Host}
use state_driven_agent.Config.{Config}
use state_driven_agent.Session.{Session, Message, msg}
use state_driven_agent.Policy.{result_checks, bindings, instruction}
use state_driven_agent.Engine.Payload.{
  said_if, nonempty_instructions, context_text, buffer_text, artifact_messages, binding_messages,
  preamble, guidance, synthesis, payload,
}

-- A message of the runtime: it carries no call, answers none, and has no stamp of the store.
abbrev pub IsRuntime : Message → Type 0
IsRuntime m = (role : String) × (text : String) × (m ≡ msg role (some text))

said_if-IsRuntime : (role : String) (o : Option String) → All IsRuntime (said_if role o)
said_if-IsRuntime role none = tt
said_if-IsRuntime role (some text) = ((role, text, refl), tt)

module _ (host : Host) (config : Config) where
  artifact_messages-IsRuntime :
      (s : Session) (checks : List (ℕ × Value))
      → All IsRuntime (artifact_messages host config s checks)
  unfolding artifact_messages
  artifact_messages-IsRuntime s [] = tt
  artifact_messages-IsRuntime s (c ∷ checks) =
      All-append IsRuntime _ _ (said_if-IsRuntime "system" _) (artifact_messages-IsRuntime s checks)

  binding_messages-IsRuntime :
      (s : Session) (more : List Value) → All IsRuntime (binding_messages host config s more)
  unfolding binding_messages
  binding_messages-IsRuntime s [] = tt
  binding_messages-IsRuntime s (b ∷ more) =
      All-append IsRuntime _ _ (said_if-IsRuntime "system" _) (binding_messages-IsRuntime s more)

  preamble-IsRuntime : (s : Session) → All IsRuntime (preamble host config s)
  unfolding preamble
  preamble-IsRuntime s =
      let checks = enumerate_from 0 (result_checks config) in
      let last = said_if-IsRuntime "system" (buffer_text host config s) in
      let shown =
        All-append IsRuntime (artifact_messages host config s checks)
          (said_if "system" (buffer_text host config s)) (artifact_messages-IsRuntime s checks)
          last in
      let context =
        All-append IsRuntime (said_if "user" (context_text host config s)) _
          (said_if-IsRuntime "user" (context_text host config s)) shown in
      All-append IsRuntime (said_if "system" (nonempty_instructions host config)) _
        (said_if-IsRuntime "system" (nonempty_instructions host config)) context

  guidance-IsRuntime : (s : Session) → All IsRuntime (guidance host config s)
  unfolding guidance
  guidance-IsRuntime s =
      All-append IsRuntime (binding_messages host config s (bindings config)) _
        (binding_messages-IsRuntime s (bindings config))
        (All-append IsRuntime (said_if "system" (instruction host config s))
          (said_if "system" (synthesis host config s))
          (said_if-IsRuntime "system" (instruction host config s))
          (said_if-IsRuntime "system" (synthesis host config s)))

  -- The messages of a decision are the system prompt, the original goal, and then the working
  -- buffer, which is the memory without its first message, verbatim and in one piece; what stands in
  -- front of it and behind it are messages of the runtime, which have a text and carry no call and
  -- answer none.
  pub payload_verbatim :
      (s : Session)
      → (front : List Message) × (behind : List Message) × (payload host config s
          ≡ msg "system" (some config.system_prompt)
              ∷ msg "user" (some ("Original user goal (immutable): " +++ s.goal))
              ∷ front
            ++ (drop 1 s.memory ++ behind))
        × All IsRuntime front
        × All IsRuntime behind
  unfolding payload
  payload_verbatim s = (
    preamble host config s,
    guidance host config s,
    refl,
    preamble-IsRuntime s,
    guidance-IsRuntime s,
  )
