-- ===== src/Keyring/Lookup.antt =====
-- What a key ring answers, once it is built from a list of keys.

use mipsorcu.Keyring.{
  none, Keys, MasterKeyRing, lookup, contains_key, insert_key, insert_entries, new_ring,
  from_key_entries, active, get_key,
}
use mipsorcu.Prelude.{
  ◌∙◌, ℕ, ◌≡◌, ◌≢◌, refl, Bytes, some, ok, List, [], ◌∷◌, ◌++◌, arith, >>=-eq-ok, inl, inr,
  Option-cases,
}

lookup-insert_key : (v : ℕ) (k : Bytes) (m : Keys) → lookup v (insert_key v k m) ≡ some k
unfolding lookup insert_key
lookup-insert_key v k [] = ground arith
lookup-insert_key v k ((w, x) ∷ m) = ground (arith, lookup-insert_key v k m)

lookup-insert_key-other :
    (u v : ℕ) (k : Bytes) (m : Keys) → u ≢ v → lookup u (insert_key v k m) ≡ lookup u m
unfolding lookup insert_key
lookup-insert_key-other u v k [] h = ground arith
lookup-insert_key-other u v k ((w, x) ∷ m) h = ground (arith, lookup-insert_key-other u v k m h)

-- an insertion that goes through finds nothing under the version
insert_entries-step :
    (keys : Keys) (v : ℕ) (k : Bytes) (es : List (ℕ × Bytes)) (m : Keys)
    → insert_entries keys ((v, k) ∷ es) ≡ ok m
    → (lookup v keys ≡ none) × (insert_entries (insert_key v k keys) es ≡ ok m)
unfolding insert_entries contains_key
insert_entries-step keys v k es m h = ground arith

-- inserting the other entries keeps what is there
insert_entries-keeps :
    (keys : Keys) (es : List (ℕ × Bytes)) (m : Keys) (v : ℕ) (k : Bytes)
    → insert_entries keys es ≡ ok m
    → lookup v keys ≡ some k
    → lookup v m ≡ some k
unfolding insert_entries
insert_entries-keeps keys [] m v k h l = cc
insert_entries-keeps keys ((w, x) ∷ es) m v k h l =
    let (absent, rest) = insert_entries-step keys w x es m h in
    let apart : v ≢ w = λ q. cc in
    insert_entries-keeps (insert_key w x keys) es m v k rest
      (lookup-insert_key-other v w x keys apart ∙ l)

insert_entries-lookup :
    (keys : Keys) (before after : List (ℕ × Bytes)) (m : Keys) (v : ℕ) (k : Bytes)
    → insert_entries keys (before ++ (v, k) ∷ after) ≡ ok m
    → lookup v m ≡ some k
insert_entries-lookup keys [] after m v k h =
    let (absent, rest) = insert_entries-step keys v k after m h in
    insert_entries-keeps (insert_key v k keys) after m v k rest (lookup-insert_key v k keys)
insert_entries-lookup keys ((w, x) ∷ before) after m v k h =
    let (absent, rest) = insert_entries-step keys w x (before ++ (v, k) ∷ after) m h in
    insert_entries-lookup (insert_key w x keys) before after m v k rest

new_ring-keys : (a : ℕ) (m : Keys) (ring : MasterKeyRing) → new_ring a m ≡ ok ring → ring.keys ≡ m
unfolding new_ring
new_ring-keys a [] ring h = cc
new_ring-keys a (e ∷ m) ring h = ground arith

-- A key ring that is built from entries, one of them the pair of a version and a key, answers that
-- version with that key: no later entry replaces it.
pub get_key-from_key_entries :
    (a : ℕ) (before after : List (ℕ × Bytes)) (v : ℕ) (k : Bytes) (ring : MasterKeyRing)
    → from_key_entries a (before ++ (v, k) ∷ after) ≡ ok ring
    → get_key ring v ≡ ok k
unfolding from_key_entries get_key
get_key-from_key_entries a before after v k ring h =
    let (m, p, q) = >>=-eq-ok (insert_entries [] (before ++ (v, k) ∷ after)) (new_ring a) h in
    rw (new_ring-keys a m ring q, insert_entries-lookup [] before after m v k p) refl

new_ring-active :
    (a : ℕ) (m : Keys) (ring : MasterKeyRing)
    → new_ring a m ≡ ok ring
    → (k : Bytes) × (active ring ≡ some (a, k)) × (get_key ring a ≡ ok k)
unfolding new_ring contains_key active get_key
new_ring-active a [] ring h = cc
new_ring-active a (e ∷ m) ring h = elim (Option-cases (lookup a (e ∷ m))) [
  | inl p ↦ ground (arith, p)
  | inr (k, p) ↦ (k, ground (arith, p), ground (arith, p))
]

-- A key ring that is built from entries has its active key: `active` does not panic, and gives the
-- key that `get` gives for the active version.
pub active-from_key_entries :
    (a : ℕ) (entries : List (ℕ × Bytes)) (ring : MasterKeyRing)
    → from_key_entries a entries ≡ ok ring
    → (k : Bytes) × (active ring ≡ some (a, k)) × (get_key ring a ≡ ok k)
unfolding from_key_entries
active-from_key_entries a entries ring h =
    let (m, p, q) = >>=-eq-ok (insert_entries [] entries) (new_ring a) h in
    new_ring-active a m ring q
