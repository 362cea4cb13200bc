-- ===== src/Identity/Tests.antt =====
-- The spelling of numbers, on the cases of the tests of agent-rust/src/identity.rs.
use state_driven_agent.Common.{◌≡◌, refl, String, ok, nat_text}
use state_driven_agent.Common.Texts.Lines.{remove_char}
use state_driven_agent.Common.Int.{◌+ℤ◌, ◌-ℤ◌}
use state_driven_agent.Json.{float}
use state_driven_agent.Json.Host.{Host}
use state_driven_agent.Json.Sample.{sample_host}
use state_driven_agent.Identity.{
  canonical_number, canonical_float, python_number, form_of, strip_front, plain, int_text,
}

abbrev numeral : String → Host
numeral raw = record sample_host { number_text = λ n. raw }

tests : Unit {0}
unfolding canonical_number canonical_float python_number form_of strip_front plain int_text
    remove_char ◌+ℤ◌ ◌-ℤ◌ nat_text
tests = tt

one : canonical_number (numeral "1.0") (float 0x3ff0000000000000) ≡ ok "1"
unfolding tests
one = refl

small : canonical_number (numeral "1e-6") (float 0x3eb0c6f7a0b5ed8d) ≡ ok "0.000001"
unfolding tests
small = refl

smaller : canonical_number (numeral "1e-7") (float 0x3e7ad7f29abcaf48) ≡ ok "1e-7"
unfolding tests
smaller = refl

large : canonical_number (numeral "1e21") (float 0x444b1ae4d6e2ef50) ≡ ok "1e+21"
unfolding tests
large = refl

python_one : python_number (numeral "1.0") (float 0x3ff0000000000000) ≡ "1.0"
unfolding tests
python_one = refl

python_small : python_number (numeral "1e-5") (float 0x3ee4f8b588e368f1) ≡ "1e-05"
unfolding tests
python_small = refl
