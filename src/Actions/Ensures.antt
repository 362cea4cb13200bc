-- ===== src/Actions/Ensures.antt =====
-- What an action ensures where it starts in a session of a kind: of its result, an error included, and of
-- the session behind it.
use state_driven_agent.Common.{String, ◌≡◌, ◌∙◌, Result, ok, err}
use state_driven_agent.Session.{Session}
use state_driven_agent.Actions.{World, Action, proceed, ◌>>=◌}
use state_driven_agent.Actions.Frame.{Leaves}

pub record Ensures {A : Type 0} (P : Session → Type 0) (Q : Result String A → Session → Type 0)
    (m : Action A) : Type 0 where
  pub ensured : (w : World) → P w.session → Q (m w).0 (m w).1.session

-- What the first of two actions ensures: for its result what the second starts from, and for an error
-- what both are to ensure.
abbrev pub Via :
    {A B : Type 0}
    → (A → Session → Type 0)
    → (Result String B → Session → Type 0)
    → Result String A
    → Session
    → Type 0
Via R Q (ok a) s = R a s
Via R Q (err e) s = Q (err e) s

module _ {A B : Type 0} (P : Session → Type 0) (R : A → Session → Type 0)
    (Q : Result String B → Session → Type 0) where
  proceed-Ensures :
      (f : A → Action B) (r : Result String A × World)
      → Via R Q r.0 r.1.session
      → ((a : A) → Ensures (R a) Q (f a))
      → Q (proceed f r).0 (proceed f r).1.session
  proceed-Ensures f (ok a, v) h q = (q a).ensured v h
  proceed-Ensures f (err e, v) h q = h

  pub Ensures-bind :
      (m : Action A) (f : A → Action B)
      → Ensures P (Via R Q) m
      → ((a : A) → Ensures (R a) Q (f a))
      → Ensures P Q (m >>= f)
  unfolding ◌>>=◌
  Ensures-bind m f p q = record { ensured = λ w h. proceed-Ensures f (m w) (p.ensured w h) q }

-- An action that leaves a part of the session stands in front.
module _ {X A B : Type 0} (part : Session → X) (x : X)
    (Q : Result String B → Session → Type 0) where
  kept_part :
      (m : Action A) (w : World) (r : Result String A × World)
      → part r.1.session ≡ x
      → ((e : String) (s : Session) → part s ≡ x → Q (err e) s)
      → Via (λ a s. part s ≡ x) Q r.0 r.1.session
  kept_part m w (ok a, v) h k = h
  kept_part m w (err e, v) h k = k e v.session h

  pub Ensures-Leaves :
      (m : Action A) (f : A → Action B)
      → ((e : String) (s : Session) → part s ≡ x → Q (err e) s)
      → Leaves part m
      → ((a : A) → Ensures (λ s. part s ≡ x) Q (f a))
      → Ensures (λ s. part s ≡ x) Q (m >>= f)
  Ensures-Leaves m f k p q =
      Ensures-bind (λ s. part s ≡ x) (λ a s. part s ≡ x) Q m f
        (record { ensured = λ w h. kept_part m w (m w) (p.leaves w ∙ h) k }) q

pub Ensures-from :
    {A : Type 0} (P P' : Session → Type 0) (Q : Result String A → Session → Type 0) (m : Action A)
    → ((s : Session) → P s → P' s)
    → Ensures P' Q m
    → Ensures P Q m
Ensures-from P P' Q m h e = record { ensured = λ w p. e.ensured w (h w.session p) }

pub Ensures-to :
    {A : Type 0} (P : Session → Type 0) (Q Q' : Result String A → Session → Type 0) (m : Action A)
    → ((r : Result String A) (s : Session) → Q r s → Q' r s)
    → Ensures P Q m
    → Ensures P Q' m
Ensures-to P Q Q' m h e = record { ensured = λ w p. h (m w).0 (m w).1.session (e.ensured w p) }
