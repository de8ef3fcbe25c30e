-- ===== src/Keyring.antt =====
-- `MasterKeyRing` of src/crypto.rs: the master keys by version, one of them active. The `BTreeMap`
-- is a list of pairs in the order of the versions.
pub mod Lookup
use mathlib.Core.Option
use mipsorcu.Errors.{
  KeyringError, empty, duplicate_key_version, active_key_missing, key_unavailable,
}
use mipsorcu.Prelude.{
  ℕ, Bool, true, false, not, Bytes, Option, none, some, Result, ok, err, ok_or, reject, ◌>>=◌, ◌>>◌,
  List, [], ◌∷◌, ltb, ◌==◌, if◌then◌else◌,
}

abbrev pub Keys : Type 0
Keys = List (ℕ × Bytes)

-- `BTreeMap::get`
unfoldable pub lookup : ℕ → Keys → Option Bytes
lookup version [] = none
lookup version ((v, key) ∷ keys) =
    let rest = lookup version keys in if version == v then some key else rest

-- `BTreeMap::contains_key`
unfoldable pub contains_key : ℕ → Keys → Bool
unfolding lookup
contains_key version keys = elim (lookup version keys) [ none ↦ false | some key ↦ true ]

-- `BTreeMap::insert`
unfoldable pub insert_key : ℕ → Bytes → Keys → Keys
insert_key version key [] = (version, key) ∷ []
insert_key version key ((v, old) ∷ keys) =
    let rest = insert_key version key keys in
    if ltb version v
    then (version, key) ∷ (v, old) ∷ keys
    else if version == v
    then (version, key) ∷ keys
    else (v, old) ∷ rest

pub record MasterKeyRing : Type 0 where
  pub active_key_version : ℕ
  pub keys : Keys

-- `MasterKeyRing::new`
unfoldable pub new_ring : ℕ → Keys → Result KeyringError MasterKeyRing
unfolding contains_key
new_ring active [] = err empty
new_ring active (entry ∷ keys) =
    if not (contains_key active (entry ∷ keys))
    then err (active_key_missing active)
    else ok (record { active_key_version = active; keys = entry ∷ keys })

-- the loop of `from_key_entries`: `insert` returns the key that stood there before
unfoldable pub insert_entries : Keys → List (ℕ × Bytes) → Result KeyringError Keys
unfolding contains_key insert_key
insert_entries keys [] = ok keys
insert_entries keys ((version, key) ∷ entries) =
    let rest = insert_entries (insert_key version key keys) entries in
    if contains_key version keys then err (duplicate_key_version version) else rest

unfoldable pub from_key_entries : ℕ → List (ℕ × Bytes) → Result KeyringError MasterKeyRing
unfolding insert_entries new_ring
from_key_entries active entries = insert_entries [] entries >>= λ keys. new_ring active keys

-- `MasterKeyRing::single`
unfoldable pub single : ℕ → Bytes → Result KeyringError MasterKeyRing
unfolding from_key_entries
single active key = from_key_entries active ((active, key) ∷ [])

-- `MasterKeyRing::active`; `none` is its `unreachable!`
unfoldable pub active : MasterKeyRing → Option (ℕ × Bytes)
unfolding lookup
active ring =
    Option.map (λ key. (ring.active_key_version, key)) (lookup ring.active_key_version ring.keys)

-- `MasterKeyRing::get`
unfoldable pub get_key : MasterKeyRing → ℕ → Result KeyringError Bytes
unfolding lookup
get_key ring version = ok_or (lookup version ring.keys) (key_unavailable version)

-- `MasterKeyRing::contains`
unfoldable pub contains_version : MasterKeyRing → ℕ → Bool
unfolding contains_key
contains_version ring version = contains_key version ring.keys

abbrev versions : Keys → List ℕ
versions [] = []
versions ((v, key) ∷ keys) = v ∷ versions keys

-- `MasterKeyRing::key_versions`
abbrev pub key_versions : MasterKeyRing → List ℕ
key_versions ring = versions ring.keys
