-- ===== src/Common/Results.antt =====
-- Results with an error value, and their chain of steps.
use mathlib.Core.Path.{◌≡◌, refl}
use mathlib.Core.Logic.{◌≢◌}
use mathlib.Core.Bool.{Bool, true, false}
use mathlib.Core.Option.{Option, none, some}

pub data Result (E A : Type 0) : Type 0 where
  ok : A → Result E A
  err : E → Result E A

-- `o.ok_or(e)`
abbrev pub ok_or : {E A : Type 0} → Option A → E → Result E A
ok_or none fault = err fault
ok_or (some value) fault = ok value

-- `if !test { return Err(e) }`
abbrev pub require : {E : Type 0} → Bool → E → Result E (Unit {0})
require false fault = err fault
require true fault = ok tt

-- the `?` operator
infixl 5 ◌>>=◌ ◌>>◌
abbrev pub ◌>>=◌ : {E A B : Type 0} → Result E A → (A → Result E B) → Result E B
err fault >>= next = err fault
ok value >>= next = next value

abbrev pub ◌>>◌ : {E B : Type 0} → Result E (Unit {0}) → Result E B → Result E B
first >> second = first >>= λ done. second

pub >>=-eq-ok :
    {E A B : Type 0} (m : Result E A) (f : A → Result E B) {b : B}
    → (m >>= f) ≡ ok b
    → (a : A) × (m ≡ ok a) × (f a ≡ ok b)
>>=-eq-ok (err fault) f h = cc
>>=-eq-ok (ok value) f h = (value, refl, h)

pub require-eq-ok :
    {E : Type 0} (test : Bool) (fault : E) {u : Unit {0}} → require test fault ≡ ok u → test ≡ true
require-eq-ok false fault h = cc
require-eq-ok true fault h = refl

-- What never is a certain error.
pub bind-ne-err :
    {E A B : Type 0} {x : E} (m : Result E A) (f : A → Result E B)
    → m ≢ err x
    → ((a : A) → f a ≢ err x)
    → (m >>= f) ≢ err x
bind-ne-err (ok a) f p q h = q a h
bind-ne-err (err y) f p q h = p (cc)

pub require-ne-err : {E : Type 0} {x : E} (test : Bool) (y : E) → y ≢ x → require test y ≢ err x
require-ne-err true y p h = cc
require-ne-err false y p h = p (cc)

pub ok_or-ne-err : {E A : Type 0} {x : E} (o : Option A) (y : E) → y ≢ x → ok_or o y ≢ err x
ok_or-ne-err none y p h = p (cc)
ok_or-ne-err (some a) y p h = cc
