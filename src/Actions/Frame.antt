-- ===== src/Actions/Frame.antt =====
-- Actions that leave a part of the session as it is.
use state_driven_agent.Common.{
  String, Bool, true, false, ◌≡◌, refl, ap, ◌∙◌, if◌then◌else◌, Result, ok, err,
}
use state_driven_agent.Session.{Session}
use state_driven_agent.Session.Kept.{kept}
use state_driven_agent.Actions.{World, Action, proceed, ◌>>=◌}

pub record Leaves {X A : Type 0} (part : Session → X) (m : Action A) : Type 0 where
  pub leaves : (w : World) → part (m w).1.session ≡ part w.session

-- The parts that only the engine changes.
abbrev pub Keeps : {A : Type 0} → Action A → Type 0
Keeps m = Leaves kept m

module _ {X : Type 0} (part : Session → X) where
  pub proceed-Leaves :
      {A B : Type 0} (f : A → Action B) (r : Result String A × World)
      → ((a : A) → Leaves part (f a))
      → part (proceed f r).1.session ≡ part r.1.session
  proceed-Leaves f (ok a, v) q = (q a).leaves v
  proceed-Leaves f (err e, v) q = refl

  pub Leaves-bind :
      {A B : Type 0} (m : Action A) (f : A → Action B)
      → Leaves part m
      → ((a : A) → Leaves part (f a))
      → Leaves part (m >>= f)
  unfolding ◌>>=◌
  Leaves-bind m f p q = record { leaves = λ w. proceed-Leaves f (m w) q ∙ p.leaves w }

  pub Leaves-if :
      {A : Type 0} (b : Bool) (x y : Action A)
      → Leaves part x
      → Leaves part y
      → Leaves part (if b then x else y)
  Leaves-if true x y p q = p
  Leaves-if false x y p q = q

  -- What leaves a part leaves what is read of it.
  pub Leaves-of :
      {Y A : Type 0} (f : X → Y) (m : Action A) → Leaves part m → Leaves (λ s. f (part s)) m
  Leaves-of f m p = record { leaves = λ w. ap f (p.leaves w) }

abbrev pub Keeps-bind :
    {A B : Type 0} (m : Action A) (f : A → Action B)
    → Keeps m
    → ((a : A) → Keeps (f a))
    → Keeps (m >>= f)
Keeps-bind m f = Leaves-bind kept m f

abbrev pub Keeps-if :
    {A : Type 0} (b : Bool) (x y : Action A) → Keeps x → Keeps y → Keeps (if b then x else y)
Keeps-if b x y = Leaves-if kept b x y
