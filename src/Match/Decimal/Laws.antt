-- ===== src/Match/Decimal/Laws.antt =====
-- `decimal_equal` of agent-rust/src/engine.rs against the canonical forms.
use state_driven_agent.Common.{
  ℕ, ◌≡◌, refl, sym, ◌∙◌, arith, true, Option, none, some, List, [], ◌∷◌, String, codes,
}
use state_driven_agent.Common.Int.{ℤ, eqb_ℤ}
use state_driven_agent.Match.Decimal.{Decimal, canonical, codes_eq, same_decimal, decimal_equal}

codes_eq_eq : (s t : List ℕ) → codes_eq s t ≡ true → s ≡ t
codes_eq_eq [] [] h = refl
codes_eq_eq [] (b ∷ t) h = cc
codes_eq_eq (a ∷ s) [] h = cc
codes_eq_eq (a ∷ s) (b ∷ t) h = ground (arith, codes_eq_eq s t)

codes_eq_refl : (s : List ℕ) → codes_eq s s ≡ true
codes_eq_refl [] = refl
codes_eq_refl (a ∷ s) = ground (arith, codes_eq_refl s)

eqb_ℤ_eq : (a b : ℤ) → eqb_ℤ a b ≡ true → a ≡ b
eqb_ℤ_eq a b h = ground arith

eqb_ℤ_refl : (a : ℤ) → eqb_ℤ a a ≡ true
eqb_ℤ_refl a = ground arith

same_decimal_eq :
    (x y : Option Decimal) → same_decimal x y ≡ true → (d : Decimal) × (x ≡ some d) × (y ≡ some d)
same_decimal_eq none y h = cc
same_decimal_eq (some a) none h = cc
same_decimal_eq (some a) (some b) h =
    (a, refl, ground (arith, codes_eq_eq a.digits b.digits, eqb_ℤ_eq a.power b.power))

same_decimal_refl : (d : Decimal) → same_decimal (some d) (some d) ≡ true
same_decimal_refl d = ground (arith, codes_eq_refl d.digits, eqb_ℤ_refl d.power)

pub decimal_equal-canonical :
    (l r : String)
    → decimal_equal l r ≡ true
    → (d : Decimal) × (canonical (codes l) ≡ some d) × (canonical (codes r) ≡ some d)
unfolding decimal_equal
decimal_equal-canonical l r h = same_decimal_eq (canonical (codes l)) (canonical (codes r)) h

pub decimal_equal_of_canonical :
    (l r : String) (d : Decimal)
    → canonical (codes l) ≡ some d
    → canonical (codes r) ≡ some d
    → decimal_equal l r ≡ true
unfolding decimal_equal
decimal_equal_of_canonical l r d p q = rw (p, q) (same_decimal_refl d)

pub decimal_equal_trans :
    (a b c : String)
    → decimal_equal a b ≡ true
    → decimal_equal b c ≡ true
    → decimal_equal a c ≡ true
decimal_equal_trans a b c h k =
    let (d, p, q) = decimal_equal-canonical a b h in
    let (e, p', q') = decimal_equal-canonical b c k in
    let same : some e ≡ some d = sym p' ∙ q in decimal_equal_of_canonical a c d p (q' ∙ same)
