-- ===== src/Strict/Laws.antt =====
-- What the strict visitor of agent-rust/src/tools.rs accepts.
use state_driven_agent.Common.{
  String, true, false, Option, none, some, ◌≡◌, ◌↔◌, refl, sym, ap, ◌∙◌, str_eq, Bool-cases, inl,
  inr,
}
use state_driven_agent.Json.{
  Value, null, bool, num, str, arr, obj, Items, nil, cons, Fields, end, field, lookup, insert,
  ◌and_then◌,
}
use state_driven_agent.Json.Host.{Host}
use state_driven_agent.Strict.{is_strict_number, has_key, visit, visit_seq, visit_map}

-- The entries of the second map behind those of the first.
abbrev pub behind : Fields → Fields → Fields
behind end m = m
behind (field k v out) m = field k v (behind out m)

mutual
  -- A value with no repeated key, and with numbers that are finite or fit an `i64`. A map's entries
  -- are new to those in front of it.
  pub IsStrict : Host → Value → Type 0
  IsStrict host null = Unit {0}
  IsStrict host (bool b) = Unit {0}
  IsStrict host (num n) = is_strict_number host n ≡ true
  IsStrict host (str s) = Unit {0}
  IsStrict host (arr vs) = AreStrict host vs
  IsStrict host (obj m) = AreNew host end m

  pub AreStrict : Host → Items → Type 0
  AreStrict host nil = Unit {0}
  AreStrict host (cons v vs) = IsStrict host v × AreStrict host vs

  pub AreNew : Host → Fields → Fields → Type 0
  AreNew host out end = Unit {0}
  AreNew host out (field k v m) =
      (has_key k out ≡ false) × IsStrict host v × AreNew host (behind out (field k v end)) m

insert-new :
    (k : String) (v : Value) (out : Fields)
    → has_key k out ≡ false
    → insert k v out ≡ behind out (field k v end)
unfolding insert lookup
insert-new k v end h = refl
insert-new k v (field j w out) h = elim (Bool-cases (str_eq j k)) [
  | inl same ↦ cc (rw same at h)
  | inr other ↦ rw other (ap (field j w) (insert-new k v out (rw other at h)))
]

behind_end : (out : Fields) → behind out end ≡ out
behind_end end = refl
behind_end (field k v out) = ap (field k v) (behind_end out)

behind_assoc :
    (out : Fields) (k : String) (v : Value) (m : Fields)
    → behind (behind out (field k v end)) m ≡ behind out (field k v m)
behind_assoc end k v m = refl
behind_assoc (field j w out) k v m = ap (field j w) (behind_assoc out k v m)

and_then-eq-some :
    {A B : Type 0} (o : Option A) (f : A → Option B) {b : B}
    → (o and_then f) ≡ some b
    → (a : A) × (o ≡ some a) × (f a ≡ some b)
and_then-eq-some none f h = cc
and_then-eq-some (some a) f h = (a, refl, h)

mutual
  unfolding visit IsStrict

  visit_sound : (host : Host) (v w : Value) → visit host v ≡ some w → (w ≡ v) × IsStrict host v
  visit_sound host null w h = (cc, tt)
  visit_sound host (bool b) w h = (cc, tt)
  visit_sound host (num n) w h = elim (Bool-cases (is_strict_number host n)) [
    | inl fine ↦ (cc (rw fine at h), fine)
    | inr bad ↦ cc (rw bad at h)
  ]
  visit_sound host (str s) w h = (cc, tt)
  visit_sound host (arr vs) w h =
      let (out, e, last) = and_then-eq-some (visit_seq host vs) (λ out. some (arr out)) h in
      let (same, strict) = visit_seq_sound host vs out e in (cc, strict)
  visit_sound host (obj m) w h =
      let (out, e, last) = and_then-eq-some (visit_map host end m) (λ out. some (obj out)) h in
      let (same, strict) = visit_map_sound host end m out e in (cc, strict)

  visit_seq_sound :
      (host : Host) (vs ws : Items) → visit_seq host vs ≡ some ws → (ws ≡ vs) × AreStrict host vs
  visit_seq_sound host nil ws h = (cc, tt)
  visit_seq_sound host (cons v vs) ws h =
      let (x, e, rest) =
        and_then-eq-some (visit host v) (λ x. visit_seq host vs and_then λ out. some (cons x out))
          h in
      let (out, f, last) = and_then-eq-some (visit_seq host vs) (λ out. some (cons x out)) rest in
      let (same, strict) = visit_sound host v x e in
      let (same', strict') = visit_seq_sound host vs out f in (cc, (strict, strict'))

  visit_map_sound :
      (host : Host) (out m ws : Fields)
      → visit_map host out m ≡ some ws
      → (ws ≡ behind out m) × AreNew host out m
  visit_map_sound host out end ws h = (cc (behind_end out), tt)
  visit_map_sound host out (field k v m) ws h = elim (Bool-cases (has_key k out)) [
    | inl old ↦ cc (rw old at h)
    | inr new ↦
        let (x, e, rest) =
          and_then-eq-some (visit host v) (λ x. visit_map host (insert k x out) m) (rw new at h) in
        let (same, strict) = visit_sound host v x e in
        let grown : insert k x out ≡ behind out (field k v end) =
          ap (λ y. insert k y out) same ∙ insert-new k v out new in
        let (all_same, later) =
          visit_map_sound host (behind out (field k v end)) m ws
            (ap (λ o. visit_map host o m) (sym grown) ∙ rest) in
        (all_same ∙ behind_assoc out k v m, (new, strict, later))
  ]

mutual
  unfolding visit IsStrict

  visit_complete : (host : Host) (v : Value) → IsStrict host v → visit host v ≡ some v
  visit_complete host null h = refl
  visit_complete host (bool b) h = refl
  visit_complete host (num n) h = rw h refl
  visit_complete host (str s) h = refl
  visit_complete host (arr vs) h = rw (visit_seq_complete host vs h) refl
  visit_complete host (obj m) h = rw (visit_map_complete host end m h) refl

  visit_seq_complete : (host : Host) (vs : Items) → AreStrict host vs → visit_seq host vs ≡ some vs
  visit_seq_complete host nil h = refl
  visit_seq_complete host (cons v vs) h =
      rw (visit_complete host v h.0, visit_seq_complete host vs h.1) refl

  visit_map_complete :
      (host : Host) (out m : Fields)
      → AreNew host out m
      → visit_map host out m ≡ some (behind out m)
  visit_map_complete host out end h = ap some (sym (behind_end out))
  visit_map_complete host out (field k v m) h =
      rw (h.0, visit_complete host v h.1, insert-new k v out h.0)
        (visit_map_complete host (behind out (field k v end)) m h.2
          ∙ ap some (behind_assoc out k v m))

-- The strict visitor returns a value exactly if it is the value that it reads and no key of a map in
-- it is repeated and its numbers are finite or fit an i64.
pub visit_iff : (host : Host) (v w : Value) → (visit host v ≡ some w) ↔ ((w ≡ v) × IsStrict host v)
visit_iff host v w =
    (visit_sound host v w, λ (same, h). visit_complete host v h ∙ ap some (sym same))
