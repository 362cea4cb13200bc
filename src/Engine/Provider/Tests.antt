-- ===== src/Engine/Provider/Tests.antt =====
-- A provider whose first route does not exist.
use state_driven_agent.Common.{◌≡◌, refl, none, some, [], ◌∷◌, if◌then◌else◌, str_eq}
use state_driven_agent.Json.{Value, object, str, get, lookup}
use state_driven_agent.Json.Sample.{sample_host}
use state_driven_agent.Config.Sample.{config}
use state_driven_agent.Session.Sample.{blank}
use state_driven_agent.Actions.{World, set, ◌>>=◌}
use state_driven_agent.Engine.Provider.{Http, answered, completion_urls, post_chat}
use state_driven_agent.Engine.Provider.Exchange.{IsExchange, post_chat-IsExchange, requests}

abbrev http : Http
http = record {
  send = λ log url token payload.
      if str_eq url "http://model/chat/completions"
      then answered 200 (some (object [])) 5
      else answered 404 none 3;
  variable = λ name. none;
}

abbrev payload : Value
payload = object (("model", str "model") ∷ [])

abbrev fresh : World
fresh = record { session = blank; log = [] }

routes :
    completion_urls config
    ≡ "http://model/v1/chat/completions" ∷ "http://model/chat/completions" ∷ []
unfolding completion_urls
routes = refl

post_chat-IsExchange_example :
    IsExchange sample_host config http payload 0
      (completion_urls config)
      fresh
      (post_chat sample_host config http payload fresh)
post_chat-IsExchange_example = post_chat-IsExchange sample_host config http payload fresh

asks_twice : requests (post_chat sample_host config http payload fresh).1.log ≡ 2
unfolding post_chat completion_urls ◌>>=◌ get lookup set
asks_twice = refl
