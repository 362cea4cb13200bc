-- ===== src/Engine/Provider/Exchange.antt =====
-- What `post_chat` of agent-rust/src/engine.rs asks the provider, and what it says of it.
use state_driven_agent.Common.{
  contains_text, eq_iff, ℕ, suc, ◌+◌, ◌≤◌, String, Bool, true, false, not, ◌&&◌, Option, none, some,
  List, [], ◌∷◌, ◌++◌, ◌≡◌, refl, ap, ◌∙◌, arith, length, is_empty, is_none, ◌==◌, if◌then◌else◌,
  Result, ok,
}
use state_driven_agent.Json.{Value, get, ◌and_then◌}
use state_driven_agent.Json.Host.{Host}
use state_driven_agent.Config.{Config}
use state_driven_agent.Actions.{
  Effect, drew_id, drew_time, emitted, queried, invoked, requested, World, Action, return, ◌>>=◌,
}
use state_driven_agent.Actions.Frame.{Leaves}
use state_driven_agent.Engine.Provider.{
  Reply, unsent, unread, answered, Http, Outcome, received, broken, is_error_status, failure_of,
  concluded, replied, post_from, post_chat, completion_urls, token, diagnostic,
}

-- The number of requests.
abbrev pub requests : List Effect → ℕ
requests [] = 0
requests (drew_id ∷ log) = requests log
requests (drew_time ∷ log) = requests log
requests (emitted event s ∷ log) = requests log
requests (queried namespace key ∷ log) = requests log
requests (invoked tool args ∷ log) = requests log
requests (requested url payload ∷ log) = suc (requests log)

abbrev pub diagnostics_in : Outcome → List Value
diagnostics_in (received v diagnostics) = diagnostics
diagnostics_in (broken f) = f.failure_diagnostics

length-snoc : (xs : List Value) (x : Value) → length (xs ++ x ∷ []) ≡ suc (length xs)
length-snoc [] x = refl
length-snoc (y ∷ ys) x = ap suc (length-snoc ys x)

module _ (host : Host) (config : Config) (http : Http) (payload : Value) where
  -- The value is the body of the answer to the last request that stands in the log: it went to one of
  -- the routes, with this payload, and the status of its answer is no error.
  pub record IsAnswer (urls : List String) (log' : List Effect) (v : Value) : Type 0 where
    pub log : List Effect
    pub url : String
    pub last : log' ≡ requested url payload ∷ log
    pub route : contains_text urls url ≡ true
    pub status : ℕ
    pub elapsed : ℕ
    pub answers :
        http.send log url (token host config http payload) payload
        ≡ answered status (some v) elapsed
    pub fine : is_error_status status ≡ false

  abbrev pub IsRead : List String → List Effect → Outcome → Type 0
  IsRead urls log (received v diagnostics) = IsAnswer urls log v
  IsRead urls log (broken f) = Unit {0}

  -- The effects behind a log are requests with the payload, to some of the routes, in their order.
  pub data Asked : List String → List Effect → List Effect → Type 0 where
    asked_none : (urls : List String) (log : List Effect) → Asked urls log log
    asked :
        (url : String) (urls : List String) (log log' : List Effect)
        → Asked urls (requested url payload ∷ log) log'
        → Asked (url ∷ urls) log log'

  -- From a world, with this many diagnostics before and these routes to ask.
  pub record IsExchange (told : ℕ) (urls : List String) (w : World)
      (r : Result String Outcome × World) : Type 0 where
    pub outcome : Outcome
    pub returned : r.0 ≡ ok outcome
    pub each_told : length (diagnostics_in outcome) + requests w.log ≡ told + requests r.1.log
    pub bounded : requests r.1.log ≤ requests w.log + length urls
    pub only_requests : Asked urls w.log r.1.log
    pub kept_session : r.1.session ≡ w.session
    pub is_read : IsRead urls r.1.log outcome

  -- One request ends it.
  IsExchange-end :
      (ds : List Value) (d : Value) (urls : List String) (url : String) (w : World) (o : Outcome)
      → diagnostics_in o ≡ ds ++ d ∷ []
      → IsRead (url ∷ urls) (requested url payload ∷ w.log) o
      → IsExchange
          (length ds)
          (url ∷ urls)
          w
          (ok o, record w { log = requested url payload ∷ w.log })
  IsExchange-end ds d urls url w o e h =
      let one_more : length (diagnostics_in o) ≡ suc (length ds) = ap length e ∙ length-snoc ds d in
      record {
        outcome = o;
        returned = refl;
        each_told = omega arith;
        bounded = omega arith;
        only_requests = asked url urls _ _ (asked_none urls _);
        kept_session = refl;
        is_read = h;
      }

  IsRead-next :
      (url : String) (urls : List String) (log : List Effect) (o : Outcome)
      → IsRead urls log o
      → IsRead (url ∷ urls) log o
  IsRead-next url urls log (broken f) h = tt
  IsRead-next url urls log (received v ds) h = record {
    log = h.log;
    url = h.url;
    last = h.last;
    route = rw h.route (ground arith);
    status = h.status;
    elapsed = h.elapsed;
    answers = h.answers;
    fine = h.fine;
  }

  IsExchange-next :
      (ds : List Value) (d : Value) (urls : List String) (url : String) (w : World)
      (r : Result String Outcome × World)
      → IsExchange (length (ds ++ d ∷ [])) urls (record w { log = requested url payload ∷ w.log }) r
      → IsExchange (length ds) (url ∷ urls) w r
  IsExchange-next ds d urls url w r h =
      let one_more = length-snoc ds d in
      let counted = h.each_told in
      let within = h.bounded in
      record {
        outcome = h.outcome;
        returned = h.returned;
        each_told = omega arith;
        bounded = omega arith;
        only_requests = asked url urls _ _ h.only_requests;
        kept_session = h.kept_session;
        is_read = IsRead-next url urls r.1.log h.outcome h.is_read;
      }

  failure_of-none :
      (status : ℕ) (parsed : Option Value)
      → failure_of host status parsed ≡ none
      → is_error_status status ≡ false
  failure_of-none status parsed h = go (is_error_status status) _ h
    where
      go :
          (b : Bool) (code : String)
          → (if b
              then some code
              else if is_none parsed
              then some "invalid_model_response"
              else none)
            ≡ none
          → b ≡ false
      go true code e = cc
      go false code e = refl

  concluded-IsRead :
      (urls : List String) (log : List Effect) (failure : Option String) (parsed : Option Value)
      (ds : List Value)
      → ((v : Value) → failure ≡ none → parsed ≡ some v → IsAnswer urls log v)
      → IsRead urls log (concluded host config http payload failure parsed ds)
  concluded-IsRead urls log (some code) parsed ds h = tt
  concluded-IsRead urls log none none ds h = tt
  concluded-IsRead urls log none (some v) ds h = h v refl refl

  concluded-diagnostics :
      (failure : Option String) (parsed : Option Value) (ds : List Value)
      → diagnostics_in (concluded host config http payload failure parsed ds) ≡ ds
  concluded-diagnostics (some code) parsed ds = refl
  concluded-diagnostics none none ds = refl
  concluded-diagnostics none (some v) ds = refl

  replied-IsExchange :
      (next : List Value → Action Outcome) (more : Bool) (urls : List String) (ds : List Value)
      (url : String) (w : World) (reply : Reply)
      → http.send w.log url (token host config http payload) payload ≡ reply
      → ((more_ds : List Value) (v : World) → IsExchange (length more_ds) urls v (next more_ds v))
      → IsExchange (length ds) (url ∷ urls) w (
          replied host config http payload next more ds reply
            (record w { log = requested url payload ∷ w.log }))
  unfolding replied
  replied-IsExchange next more urls ds url w (unsent timeout elapsed) e h =
      IsExchange-end ds _ urls url w _ refl tt
  replied-IsExchange next more urls ds url w (unread status timeout elapsed) e h =
      IsExchange-end ds _ urls url w _ refl tt
  replied-IsExchange next more urls ds url w (answered status parsed elapsed) e h =
      go (status == 404 && more)
    where
      failure : Option String
      failure = failure_of host status parsed

      told : Value
      told =
          diagnostic host config http payload elapsed (some status) failure
            (parsed and_then get "usage")

      ended :
          IsRead
            (url ∷ urls)
            (requested url payload ∷ w.log)
            (concluded host config http payload failure parsed (ds ++ told ∷ []))
      ended = concluded-IsRead (url ∷ urls) _ failure parsed _ λ v f p. record {
        log = w.log;
        url = url;
        last = refl;
        route = ground (arith, eq_iff url url);
        status = status;
        elapsed = elapsed;
        answers = e ∙ ap (λ x. answered status x elapsed) p;
        fine = failure_of-none status parsed f;
      }

      go :
          (b : Bool)
          → IsExchange (length ds) (url ∷ urls) w (
              (if b
                  then next (ds ++ told ∷ [])
                  else return (concluded host config http payload failure parsed (ds ++ told ∷ [])))
                (record w { log = requested url payload ∷ w.log }))
      go true = IsExchange-next ds told urls url w _ (h (ds ++ told ∷ []) _)
      go false = IsExchange-end ds told urls url w _ (concluded-diagnostics failure parsed _) ended

  post_from-IsExchange :
      (urls : List String) (ds : List Value) (w : World)
      → IsExchange (length ds) urls w (post_from host config http payload urls ds w)
  unfolding post_from ◌>>=◌
  post_from-IsExchange [] ds w = record {
    outcome = _;
    returned = refl;
    each_told = refl;
    bounded = omega arith;
    only_requests = asked_none [] _;
    kept_session = refl;
    is_read = tt;
  }
  post_from-IsExchange (url ∷ urls) ds w =
      replied-IsExchange (post_from host config http payload urls) (not (is_empty urls)) urls ds url
        w _ refl (post_from-IsExchange urls)

  -- Whatever the provider answers, post_chat returns an outcome; its only effects are requests with
  -- the payload, to the routes of completion_urls in their order, at most one to each; the outcome
  -- has one diagnostic for each request, and the session is as it was; and if a value is received,
  -- it is the body of the answer to the last of these requests, which went to one of the routes, and
  -- whose status is no error.
  pub post_chat-IsExchange :
      (w : World) → IsExchange 0 (completion_urls config) w (post_chat host config http payload w)
  unfolding post_chat
  post_chat-IsExchange w = post_from-IsExchange (completion_urls config) [] w

  pub post_chat-Reads : Leaves (λ t. t) (post_chat host config http payload)
  post_chat-Reads = record { leaves = λ w. (post_chat-IsExchange w).kept_session }
