-- ===== src/Actions/Chain.antt =====
-- What a chain of actions that succeeds went through.
use state_driven_agent.Common.{String, ◌≡◌, refl, Result, ok, err}
use state_driven_agent.Actions.{World, Action, proceed, ◌>>=◌}

pub bind-eq-ok :
    {A B : Type 0} (m : Action A) (f : A → Action B) (w w' : World) (b : B)
    → (m >>= f) w ≡ (ok b, w')
    → (a : A) × (v : World) × (m w ≡ (ok a, v)) × (f a v ≡ (ok b, w'))
unfolding ◌>>=◌
bind-eq-ok {A} {B} m f w w' b h = go (m w) refl h
  where
    go :
        (r : Result String A × World)
        → m w ≡ r
        → proceed f r ≡ (ok b, w')
        → (a : A) × (v : World) × (m w ≡ (ok a, v)) × (f a v ≡ (ok b, w'))
    go (ok a, v) e k = (a, v, e, k)
    go (err x, v) e k = cc
