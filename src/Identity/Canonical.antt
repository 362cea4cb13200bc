-- ===== src/Identity/Canonical.antt =====
-- agent-rust/src/identity.rs: the canonical text of a value, and the identities of commands, actions and
-- payloads.
use state_driven_agent.Common.{
  ℕ, ◌+◌, ◌-◌, ◌/◌, ◌%◌, String, Bool, true, false, ◌&&◌, ◌||◌, List, [], ◌∷◌, map, if◌then◌else◌,
  ltb, ◌==◌, ◌+++◌, join, codes, Result, ok, ◌>>=◌,
}
use state_driven_agent.Json.{
  Value, obj, arr, str, num, bool, null, Fields, end, field, Items, nil, cons, array,
}
use state_driven_agent.Json.Host.{Host}
use state_driven_agent.Actions.{Env}
use state_driven_agent.Identity.{canonical_number, python_number}

-- `s.encode_utf16()`: a code point above the basic plane is a pair of surrogates.
abbrev pub utf16_units : List ℕ → List ℕ
utf16_units [] = []
utf16_units (c ∷ cs) =
    if ltb c 0x10000
    then c ∷ utf16_units cs
    else (0xd800 + (c - 0x10000) / 0x400) ∷ (0xdc00 + (c - 0x10000) % 0x400) ∷ utf16_units cs

abbrev pub utf16 : String → List ℕ
utf16 s = utf16_units (codes s)

-- Whether a sequence of units does not stand behind another.
abbrev pub leb_units : List ℕ → List ℕ → Bool
leb_units [] bs = true
leb_units (a ∷ xs) [] = false
leb_units (a ∷ xs) (b ∷ ys) = ltb a b || (a == b && leb_units xs ys)

-- The entries of an object, sorted by their keys.
module _ {A : Type 0} (units : String → List ℕ) where
  abbrev pub insert_entry : String × A → List (String × A) → List (String × A)
  insert_entry e [] = e ∷ []
  insert_entry e (x ∷ xs) =
      let rest = insert_entry e xs in
      if leb_units (units e.0) (units x.0) then e ∷ x ∷ xs else x ∷ rest

  abbrev pub sort_entries : List (String × A) → List (String × A)
  sort_entries [] = []
  sort_entries (x ∷ xs) = insert_entry x (sort_entries xs)

-- `collect::<Result<Vec<_>, _>>()`
abbrev pub sequenced : List (Result String String) → Result String (List String)
sequenced [] = ok []
sequenced (r ∷ rs) = r >>= λ s. sequenced rs >>= λ more. ok (s ∷ more)

module _ (host : Host) where
  abbrev pub entry_text : String × Result String String → Result String String
  entry_text (k, r) = r >>= λ s. ok (host.json_text (str k) +++ ":" +++ s)

  abbrev pub bracketed : String → String → List (Result String String) → Result String String
  bracketed left right rs = sequenced rs >>= λ ss. ok (left +++ join "," ss +++ right)

  abbrev pub object_text :
      (String → List ℕ) → List (String × Result String String) → Result String String
  object_text units entries = bracketed "{" "}" (map entry_text (sort_entries units entries))

  abbrev bool_text : Bool → String
  bool_text true = "true"
  bool_text false = "false"

  unfoldable mutual
    unfolding canonical_number

    pub canonical_json : Value → Result String String
    canonical_json null = ok "null"
    canonical_json (bool b) = ok (bool_text b)
    canonical_json (str s) = ok (host.json_text (str s))
    canonical_json (num n) = canonical_number host n
    canonical_json (arr vs) = bracketed "[" "]" (canonical_items vs)
    canonical_json (obj m) = object_text utf16 (canonical_fields m)

    pub canonical_items : Items → List (Result String String)
    canonical_items nil = []
    canonical_items (cons v vs) = canonical_json v ∷ canonical_items vs

    pub canonical_fields : Fields → List (String × Result String String)
    canonical_fields end = []
    canonical_fields (field k v m) = (k, canonical_json v) ∷ canonical_fields m

  unfoldable mutual
    unfolding python_number

    pub python_encoded : Value → Result String String
    python_encoded (num n) = ok (python_number host n)
    python_encoded (arr vs) = bracketed "[" "]" (python_items vs)
    python_encoded (obj m) = object_text codes (python_fields m)
    python_encoded v = ok (host.json_text v)

    pub python_items : Items → List (Result String String)
    python_items nil = []
    python_items (cons v vs) = python_encoded v ∷ python_items vs

    pub python_fields : Fields → List (String × Result String String)
    python_fields end = []
    python_fields (field k v m) = (k, python_encoded v) ∷ python_fields m

  unfoldable pub digest : Value → Result String String
  digest v = canonical_json v >>= λ text. ok (host.sha256 text)

  abbrev pub action_identity : String → String → String → Result String String
  action_identity namespace session execution =
      digest (array (str "agent-action-v1" ∷ str namespace ∷ str session ∷ str execution ∷ []))

  abbrev pub payload_identity : String → String → Value → Result String String
  payload_identity tool target args =
      digest (array (str "agent-payload-v1" ∷ str tool ∷ str target ∷ args ∷ []))

  -- The environment of the actions with the identities of this file.
  abbrev pub with_identities : Env → Env
  with_identities env = record env {
    action_key = action_identity;
    payload_digest = payload_identity;
    canonical = canonical_json;
  }
