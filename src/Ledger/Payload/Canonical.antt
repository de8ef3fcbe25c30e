-- ===== src/Ledger/Payload/Canonical.antt =====
-- `CanonicalPayloadObject` of src/ledger/canonical.rs keeps every field of an accepted payload.
use mipsorcu.Json.{Value, Map, get, entry}
use mipsorcu.Ledger.Payload.{
  true, ◌∷◌, false, text_eq, List, contains, Text, canonical_payload_object,
}
use mipsorcu.Prelude.{
  Bool-cases, contains, [], inr, ◌∙◌, sym, inl, Option-cases, subst, text_eq_iff, arith, ◌≡◌, refl,
  none, some,
}

get-entry-same : (k : Text) (v : Value) (m : Map) → get k (entry k v m) ≡ some v
unfolding get
get-entry-same k v m = ground (arith, text_eq_iff k k)

get-entry-other :
    (k j : Text) (v : Value) (m : Map) → text_eq j k ≡ false → get k (entry j v m) ≡ get k m
unfolding get
get-entry-other k j v m h = ground arith

canonical-present :
    (j : Text) (allowed : List Text) (m : Map) (v : Value)
    → get j m ≡ some v
    → canonical_payload_object (j ∷ allowed) m ≡ entry j v (canonical_payload_object allowed m)
unfolding canonical_payload_object
canonical-present j allowed m v h = rw (h, canonical_payload_object) refl

canonical-absent :
    (j : Text) (allowed : List Text) (m : Map)
    → get j m ≡ none
    → canonical_payload_object (j ∷ allowed) m ≡ canonical_payload_object allowed m
unfolding canonical_payload_object
canonical-absent j allowed m h = rw (h, canonical_payload_object) refl

-- a key that the object does not have is not in its canonical form
canonical_missing :
    (k : Text) (allowed : List Text) (m : Map)
    → get k m ≡ none
    → get k (canonical_payload_object allowed m) ≡ none
unfolding canonical_payload_object get
canonical_missing k [] m h = refl
canonical_missing k (j ∷ allowed) m h = elim (Option-cases (get j m)) [
  | inl e ↦ rw (canonical-absent j allowed m e) (canonical_missing k allowed m h)
  | inr (v, e) ↦
      let apart : text_eq j k ≡ false = ground (arith, text_eq_iff j k, e) in
      rw
        (
          canonical-present j allowed m v e,
          get-entry-other k j v (canonical_payload_object allowed m) apart,
        )
        (canonical_missing k allowed m h)
]

at_key :
    (k j : Text) (allowed : List Text) (m : Map)
    → j ≡ k
    → get k (canonical_payload_object (j ∷ allowed) m) ≡ get k m
at_key k j allowed m same =
    subst (λ x. get k (canonical_payload_object (x ∷ allowed) m) ≡ get k m) (sym same)
      (elim (Option-cases (get k m)) [
        | inl e ↦ rw (canonical-absent k allowed m e) (canonical_missing k allowed m e ∙ sym e)
        | inr (v, e) ↦
            rw (canonical-present k allowed m v e)
              (get-entry-same k v (canonical_payload_object allowed m) ∙ sym e)
      ])

-- Under every allowed key the canonical form of a payload has the value that the payload has, and
-- none where the payload has none.
pub get-canonical_payload_object :
    (allowed : List Text) (m : Map) (k : Text)
    → contains allowed k ≡ true
    → get k (canonical_payload_object allowed m) ≡ get k m
unfolding contains
get-canonical_payload_object [] m k h = cc
get-canonical_payload_object (j ∷ allowed) m k h = elim (Bool-cases (text_eq j k)) [
  | inl e ↦ at_key k j allowed m ((text_eq_iff j k).0 e)
  | inr e ↦
      let rest = get-canonical_payload_object allowed m k (ground arith) in
      elim (Option-cases (get j m)) [
        | inl a ↦ rw (canonical-absent j allowed m a) rest
        | inr (v, a) ↦
            rw
              (
                canonical-present j allowed m v a,
                get-entry-other k j v (canonical_payload_object allowed m) e,
              )
              rest
      ]
]
