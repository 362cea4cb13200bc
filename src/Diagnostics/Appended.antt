-- ===== src/Diagnostics/Appended.antt =====
-- What appending an entry to the journal of agent-rust/src/diagnostics.rs does, by its family.

use state_driven_agent.Common.{
  String, Option, none, some, [], ◌∷◌, ◌++◌, ◌≡◌, refl, str_eq, eq_iff, Result, ok, err, ◌>>=◌,
  ok_or, Bool-cases, inl, inr,
}
use state_driven_agent.Common.Int.{ℤ, pos, checked_add}
use state_driven_agent.Json.{Value, as_str}
use state_driven_agent.Session.{Session}
use state_driven_agent.Diagnostics.{
  events_family, attempts_family, decisions_family, Fault, count_of, trim, with_event, with_attempt,
  push_attempt, push_decision, cached, counted, append, refresh_completeness,
}

-- A session whose entry of the family is cached.
pub data IsCached (s : Session) (family : String) (payload : Value) (t : Session) : Type 0 where
  event :
      (text : String)
      → family ≡ events_family
      → as_str payload ≡ some text
      → t ≡ record s { compaction_events = trim (s.compaction_events ++ text ∷ []) }
      → IsCached s family payload t
  attempt :
      family ≡ attempts_family
      → t ≡ push_attempt (with_attempt s payload) payload
      → IsCached s family payload t
  decision : family ≡ decisions_family → t ≡ push_decision s payload → IsCached s family payload t

with_event-IsCached :
    (s : Session) (family : String) (payload : Value) (t : Session) (o : Option String)
    → family ≡ events_family
    → as_str payload ≡ o
    → with_event s o ≡ ok t
    → IsCached s family payload t
unfolding with_event
with_event-IsCached s family payload t none e f h = cc
with_event-IsCached s family payload t (some text) e f h = event text e f (cc)

cached-IsCached :
    (s : Session) (family : String) (payload : Value) (t : Session)
    → cached s family payload ≡ ok t
    → IsCached s family payload t
unfolding cached
cached-IsCached s family payload t h = elim (Bool-cases (str_eq family events_family)) [
  | inl a ↦
      with_event-IsCached s family payload t (as_str payload) ((eq_iff family events_family).0 a)
        refl (rw a at h)
  | inr na ↦ elim (Bool-cases (str_eq family attempts_family)) [
    | inl b ↦ attempt ((eq_iff family attempts_family).0 b) (cc (rw (na, b) at h))
    | inr nb ↦ elim (Bool-cases (str_eq family decisions_family)) [
      | inl c ↦ decision ((eq_iff family decisions_family).0 c) (cc (rw (na, nb, c) at h))
      | inr nc ↦ cc (rw (na, nb, nc) at h)
    ]
  ]
]

-- What one appended entry does.
pub record IsAppended (s : Session) (family : String) (payload : Value) (s' : Session)
    : Type 0 where
  pub ordinal : ℤ
  pub next : checked_add (count_of s.diagnostic_counts family) (pos 1) ≡ some ordinal
  pub between : Session
  pub kept : IsCached s family payload between
  pub after : s' ≡ refresh_completeness (counted family payload ordinal between)

pub append-IsAppended :
    (s : Session) (family : String) (payload : Value) (s' : Session)
    → append s family payload ≡ ok s'
    → IsAppended s family payload s'
unfolding append
append-IsAppended s family payload s' h =
    go (checked_add (count_of s.diagnostic_counts family) (pos 1)) refl h
  where
    last :
        (n : ℤ)
        → checked_add (count_of s.diagnostic_counts family) (pos 1) ≡ some n
        → (r : Result Fault Session) → cached s family payload ≡ r
        → (r >>= λ t. ok (refresh_completeness (counted family payload n t))) ≡ ok s'
        → IsAppended s family payload s'
    last n e (err x) f k = cc
    last n e (ok t) f k = record {
      ordinal = n;
      next = e;
      between = t;
      kept = cached-IsCached s family payload t f;
      after = cc;
    }

    go :
        (o : Option ℤ)
        → checked_add (count_of s.diagnostic_counts family) (pos 1) ≡ o
        → (ok_or o Fault.ordinal_overflow >>= λ n.
            cached s family payload >>= λ t. ok (refresh_completeness (counted family payload n t)))
          ≡ ok s'
        → IsAppended s family payload s'
    go none e k = cc
    go (some n) e k = last n e (cached s family payload) refl k
