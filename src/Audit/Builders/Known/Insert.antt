-- ===== src/Audit/Builders/Known/Insert.antt =====
-- Maps whose keys are all in an allowlist, and the insertions that keep them so.
use mipsorcu.Audit.Builders.Fields.{insert_some}
use mipsorcu.Audit.Metadata.{reject_unknown_keys}
use mipsorcu.Json.{Value, Map, end, entry, insert, keys}
use mipsorcu.Prelude.{
  ◌≡◌, refl, true, Text, Option, List, ok, contains, text_eq, text_lt, Bool-cases, inl, inr,
}

pub data IsKnown (allowed : List Text) : Map → Type 0 where
  known_end : IsKnown allowed end
  known_entry :
      {key : Text} {value : Value} {m : Map}
      → contains allowed key ≡ true
      → IsKnown allowed m
      → IsKnown allowed (entry key value m)

pub insert-IsKnown :
    {allowed : List Text} (key : Text) (value : Value) (m : Map)
    → contains allowed key ≡ true
    → IsKnown allowed m
    → IsKnown allowed (insert key value m)
unfolding insert
insert-IsKnown key value end h known_end = known_entry h known_end
insert-IsKnown key value (entry other w m) h (known_entry p k) =
    elim (Bool-cases (text_eq other key)) [
      | inl e ↦ rw e (known_entry h k)
      | inr e ↦ elim (Bool-cases (text_lt key other)) [
        | inl l ↦ rw (e, l) (known_entry h (known_entry p k))
        | inr l ↦ rw (e, l) (known_entry p (insert-IsKnown key value m h k))
      ]
    ]

pub insert_some-IsKnown :
    {A : Type 0} {allowed : List Text} (key : Text) (value : A → Value) (field : Option A) (m : Map)
    → contains allowed key ≡ true
    → IsKnown allowed m
    → IsKnown allowed (insert_some key value field m)
unfolding insert_some
insert_some-IsKnown key value Option.none m h k = k
insert_some-IsKnown key value (Option.some x) m h k = insert-IsKnown key (value x) m h k

pub reject_unknown_keys-IsKnown :
    {allowed : List Text} {m : Map}
    → IsKnown allowed m
    → reject_unknown_keys allowed (keys m) ≡ ok tt
unfolding reject_unknown_keys keys
reject_unknown_keys-IsKnown known_end = refl
reject_unknown_keys-IsKnown (known_entry p k) = rw (p, reject_unknown_keys-IsKnown k) refl

pub ruleset insertions = (insert-IsKnown, insert_some-IsKnown, known_end)
