-- ===== src/Decision/Calls.antt =====
-- The identities of the calls of a decision of agent-rust/src/engine.rs.
use state_driven_agent.Common.{
  ℕ, zero, suc, ◌+◌, ◌<◌, String, true, false, Option, none, some, List, [], ◌∷◌, ◌++◌, ◌≡◌, ◌≢◌,
  refl, sym, ap, ◌∙◌, arith, str_eq, eq_iff, contains_text, length, ◌+++◌, if◌then◌else◌, ok,
  Bool-cases, inl, inr,
}
use text.Mathlib.TextLemmas.{append_cancel_left}
use state_driven_agent.Json.{Value, get_str}
use state_driven_agent.Json.Host.{Host}
use state_driven_agent.Config.{Config}
use state_driven_agent.Actions.{Effect, drew_id, World, Env, ◌>>=◌}
use state_driven_agent.Actions.Chain.{bind-eq-ok}
use state_driven_agent.Decision.{
  draw_unused, fresh_call_id, nonblank, call_id_or, call_value, parse_calls,
}

draw_unused-new :
    (env : Env) (fuel : ℕ) (used : List String) (w w' : World) (id : String)
    → draw_unused env fuel used w ≡ (ok id, w')
    → contains_text used id ≡ false
unfolding draw_unused ◌>>=◌
draw_unused-new env zero used w w' id h = cc
draw_unused-new env (suc fuel) used w w' id h =
    elim (Bool-cases (contains_text used ("call_" +++ env.fresh_id w.log))) [
      | inl old ↦ draw_unused-new env fuel used _ w' id (rw old at h)
      | inr new ↦
          let same : "call_" +++ env.fresh_id w.log ≡ id = cc (rw new at h) in
          ap (contains_text used) (sym same) ∙ new
    ]

call_id_or-new :
    (env : Env) (used : List String) (o : Option String) (w w' : World) (id : String)
    → call_id_or env used o w ≡ (ok id, w')
    → contains_text used id ≡ false
unfolding fresh_call_id
call_id_or-new env used none w w' id h = draw_unused-new env (suc (length used)) used w w' id h
call_id_or-new env used (some x) w w' id h = elim (Bool-cases (contains_text used x)) [
  | inl old ↦ draw_unused-new env (suc (length used)) used w w' id (rw old at h)
  | inr new ↦ let same : x ≡ id = cc (rw new at h) in ap (contains_text used) (sym same) ∙ new
]

-- The calls of a decision: one for each raw call in order, each with an identity that is neither
-- used before nor the one of an earlier call.
pub data AreCalls (host : Host) (config : Config)
    : List String → List Value → List Value → Type 0 where
  no_calls : (used : List String) → AreCalls host config used [] []
  call :
      (used : List String) (raw : Value) (raws : List Value) (id : String) (calls : List Value)
      → contains_text used id ≡ false
      → AreCalls host config (used ++ id ∷ []) raws calls
      → AreCalls host config used (raw ∷ raws) (call_value host config raw id ∷ calls)

-- If parsing the calls of a response succeeds, its result has one call for each raw call in order,
-- each with an identity that is neither among the used ones nor the one of an earlier call.
pub parse_calls-AreCalls :
    (host : Host) (env : Env) (config : Config) (used : List String) (raws calls : List Value)
    (w w' : World)
    → parse_calls host env config used raws w ≡ (ok calls, w')
    → AreCalls host config used raws calls
unfolding parse_calls
parse_calls-AreCalls host env config used [] calls w w' h =
    let same : [] ≡ calls = cc in rw (← same) (no_calls used)
parse_calls-AreCalls host env config used (raw ∷ raws) calls w w' h =
    let (id, v, drawn, more) =
      bind-eq-ok (call_id_or env used (nonblank (get_str "id" raw))) _ w w' calls h in
    let (rest, v', later, last) =
      bind-eq-ok (parse_calls host env config (used ++ id ∷ []) raws) _ v w' calls more in
    let same : call_value host config raw id ∷ rest ≡ calls = cc in
    rw (← same) (
      call used raw raws id rest
        (call_id_or-new env used (nonblank (get_str "id" raw)) w v id drawn)
        (parse_calls-AreCalls host env config (used ++ id ∷ []) raws rest v v' later))

-- The identities that the host draws are different from one draw to the next.
abbrev pub AreDistinct : Env → Type 0
AreDistinct env = (l m : List Effect) → env.fresh_id l ≡ env.fresh_id m → length l ≡ length m

abbrev without : String → List String → List String
without x [] = []
without x (y ∷ ys) = let rest = without x ys in if str_eq y x then ys else y ∷ rest

length-without :
    (x : String) (ys : List String)
    → contains_text ys x ≡ true
    → length (without x ys) + 1 ≡ length ys
length-without x [] h = cc
length-without x (y ∷ ys) h = ground (arith, eq_iff y x, length-without x ys)

contains_text-without :
    (x z : String) (ys : List String)
    → x ≢ z
    → contains_text ys z ≡ true
    → contains_text (without x ys) z ≡ true
contains_text-without x z [] ne h = cc
contains_text-without x z (y ∷ ys) ne h =
    ground (arith, eq_iff y x, eq_iff y z, eq_iff x z, contains_text-without x z ys ne)

-- With more draws than there are used identities left, one of them is unused.
draw_unused-ok :
    (env : Env) (fuel : ℕ) (used left : List String) (w : World)
    → AreDistinct env
    → length left < fuel
    → ((l : List Effect)
        → length w.log < length l + 1
        → contains_text used ("call_" +++ env.fresh_id l) ≡ true
        → contains_text left ("call_" +++ env.fresh_id l) ≡ true)
    → (id : String) × (w' : World) × (draw_unused env fuel used w ≡ (ok id, w'))
unfolding draw_unused ◌>>=◌
draw_unused-ok env zero used left w distinct h k = absurd (omega arith)
draw_unused-ok env (suc fuel) used left w distinct h k =
    elim (Bool-cases (contains_text used ("call_" +++ env.fresh_id w.log))) [
      | inr new ↦ ("call_" +++ env.fresh_id w.log, record w { log = drew_id ∷ w.log }, rw new refl)
      | inl old ↦
          let drawn = "call_" +++ env.fresh_id w.log in
          let here : contains_text left drawn ≡ true = k w.log (omega arith) old in
          let (id, w', e) =
            draw_unused-ok env fuel used (without drawn left) (record w { log = drew_id ∷ w.log })
              distinct (omega (arith, length-without drawn left here))
              (λ l longer used_too.
                contains_text-without drawn ("call_" +++ env.fresh_id l) left
                  (λ same. absurd (
                    omega (
                      arith,
                      distinct w.log l
                          (append_cancel_left "call_" (env.fresh_id w.log) (env.fresh_id l) same),
                    )))
                  (k l (omega arith) used_too)) in
          (id, w', rw old e)
    ]

-- If the identities that the host draws are different from one draw to the next, then drawing an
-- identity that is not used ends with one.
pub fresh_call_id-ok :
    (env : Env) (used : List String) (w : World)
    → AreDistinct env
    → (id : String) × (w' : World) × (fresh_call_id env used w ≡ (ok id, w'))
unfolding fresh_call_id
fresh_call_id-ok env used w distinct =
    draw_unused-ok env (suc (length used)) used used w distinct (omega arith) (λ l longer h. h)
