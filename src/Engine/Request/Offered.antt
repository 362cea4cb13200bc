-- ===== src/Engine/Request/Offered.antt =====
-- Which tools a request of agent-rust/src/engine.rs offers.
use state_driven_agent.Common.{
  Bool, true, false, ◌||◌, none, some, List, [], ◌∷◌, ◌++◌, ◌≡◌, refl, map, ok, >>=-eq-ok,
  Bool-cases, inl, inr, if◌then◌else◌,
}
use state_driven_agent.Json.{Value, str, array, get, lookup, insert}
use state_driven_agent.Json.Host.{Host}
use state_driven_agent.Config.{Config}
use state_driven_agent.Session.{Session}
use state_driven_agent.Policy.{tools_disabled}
use state_driven_agent.Actions.{set}
use state_driven_agent.Engine.Request.{
  system, advertised, is_single, wired, workflow_done, closing, one_call, closed_request,
  open_request, decision_payload,
}

module _ (host : Host) (config : Config) (s : Session) (messages : List Value) where
  -- A request with the given messages: it offers no tools where they are disabled or the workflow is complete, and
  -- else exactly the configured ones.
  pub data IsRequest (p : Value) : Type 0 where
    without_tools :
        (wire : List Value)
        → wired host config messages ≡ ok wire
        → (tools_disabled config || workflow_done host config s) ≡ true
        → get "tools" p ≡ none
        → get "tool_choice" p ≡ some (str "none")
        → get "messages" p ≡ some (array (system (closing host config s) ∷ wire))
        → IsRequest p
    with_tools :
        (wire front : List Value)
        → wired host config messages ≡ ok wire
        → (tools_disabled config || workflow_done host config s) ≡ false
        → get "tools" p ≡ some (array (map advertised config.tools))
        → get "tool_choice" p ≡ some (str "auto")
        → get "messages" p ≡ some (array (front ++ wire))
        → front ≡ (if is_single host config then system (one_call host config) ∷ [] else [])
        → IsRequest p

  closed-IsRequest :
      (wire : List Value)
      → wired host config messages ≡ ok wire
      → (tools_disabled config || workflow_done host config s) ≡ true
      → IsRequest (closed_request host config s wire)
  unfolding closed_request set insert get lookup
  closed-IsRequest wire w c = without_tools wire w c refl refl refl

  open-IsRequest :
      (wire : List Value)
      → wired host config messages ≡ ok wire
      → (tools_disabled config || workflow_done host config s) ≡ false
      → IsRequest (open_request host config wire)
  unfolding open_request set insert get lookup
  open-IsRequest wire w c = elim (Bool-cases (is_single host config)) [
    | inl single ↦
        with_tools wire (system (one_call host config) ∷ []) w c (rw single refl) (rw single refl)
          (rw single refl) (rw single refl)
    | inr native ↦
        with_tools wire [] w c (rw native refl) (rw native refl) (rw native refl) (rw native refl)
  ]

  choose-IsRequest :
      (wire : List Value) (b : Bool) (p : Value)
      → wired host config messages ≡ ok wire
      → (tools_disabled config || workflow_done host config s) ≡ b
      → (if b then closed_request host config s wire else open_request host config wire) ≡ p
      → IsRequest p
  choose-IsRequest wire true p w c e = rw (← e) (closed-IsRequest wire w c)
  choose-IsRequest wire false p w c e = rw (← e) (open-IsRequest wire w c)

  -- If the request of a decision is made, its messages end with the given ones, as single_call_wire
  -- leaves them in the single mode; where tools are disabled or the configured workflow is complete
  -- it has no tools, the choice "none" and one closing message in front; else it has exactly the
  -- configured tools, the choice "auto", and in the single mode the advice on one call in front.
  pub decision_payload-IsRequest :
      (p : Value) → decision_payload host config s messages ≡ ok p → IsRequest p
  unfolding decision_payload
  decision_payload-IsRequest p e =
      let (wire, w, e') = >>=-eq-ok (wired host config messages) _ e in
      choose-IsRequest wire (tools_disabled config || workflow_done host config s) p w refl cc
