-- ===== src/Actions/Gives.antt =====
-- What is known of the result of an action of agent-rust/src/actions.rs or engine.rs that returns one.
use state_driven_agent.Common.{String, Bool, true, false, ◌≡◌, refl, if◌then◌else◌, Result, ok, err}
use state_driven_agent.Actions.{World, Action, proceed, ◌>>=◌, lift}

-- An action whose result, where it has one, is of a kind.
pub record Gives {A : Type 0} (P : A → Type 0) (m : Action A) : Type 0 where
  pub given : (w v : World) (a : A) → m w ≡ (ok a, v) → P a

proceed-given :
    {A B : Type 0} (P : B → Type 0) (f : A → Action B) (r : Result String A × World) (v : World)
    (b : B)
    → ((a : A) → Gives P (f a))
    → proceed f r ≡ (ok b, v)
    → P b
proceed-given P f (ok a, u) v b q h = (q a).given u v b h
proceed-given P f (err e, u) v b q h = cc

pub Gives-bind :
    {A B : Type 0} (P : B → Type 0) (m : Action A) (f : A → Action B)
    → ((a : A) → Gives P (f a))
    → Gives P (m >>= f)
unfolding ◌>>=◌
Gives-bind P m f q = record { given = λ w v b h. proceed-given P f (m w) v b q h }

pub Gives-lift :
    {A : Type 0} (P : A → Type 0) (r : Result String A)
    → ((a : A) → r ≡ ok a → P a)
    → Gives P (lift r)
Gives-lift P r p = record { given = λ w v a h. p a cc }

pub Gives-return : {A : Type 0} (P : A → Type 0) (a : A) → P a → Gives P (lift (ok a))
Gives-return {A} P a p = Gives-lift P (ok a) λ b h. go b h
  where
    go : (b : A) → ◌≡◌ {A = Result String A} (ok a) (ok b) → P b
    go b h = let same : a ≡ b = cc in rw (← same) p

pub Gives-if :
    {A : Type 0} (P : A → Type 0) (b : Bool) (x y : Action A)
    → Gives P x
    → Gives P y
    → Gives P (if b then x else y)
Gives-if P true x y p q = p
Gives-if P false x y p q = q

-- With what is known of the result of the first action.
pub Gives-then :
    {A B : Type 0} (P : A → Type 0) (Q : B → Type 0) (m : Action A) (f : A → Action B)
    → Gives P m
    → ((a : A) → P a → Gives Q (f a))
    → Gives Q (m >>= f)
unfolding ◌>>=◌
Gives-then {A} {B} P Q m f p q = record { given = λ w v b h. go w v b (m w) refl h }
  where
    go :
        (w v : World) (b : B) (r : Result String A × World)
        → m w ≡ r
        → proceed f r ≡ (ok b, v)
        → Q b
    go w v b (ok a, u) e h = (q a (p.given w u a e)).given u v b h
    go w v b (err x, u) e h = cc
