-- ===== src/Json/Insert.antt =====
-- How `Map::insert` and `Map::get` meet.
use mipsorcu.Json.{Value, Map, end, entry, get, insert}
use mipsorcu.Prelude.{
  ◌≡◌, refl, Text, some, false, text_eq, text_eq_refl, text_eq_iff, text_lt, Bool-cases, inl, inr,
}

pub get-insert_self : (k : Text) (v : Value) (m : Map) → get k (insert k v m) ≡ some v
unfolding get insert
get-insert_self k v end = rw (text_eq_refl k) refl
get-insert_self k v (entry j w m) = elim (Bool-cases (text_eq j k)) [
  | inl e ↦ rw (e, text_eq_refl k) refl
  | inr e ↦ elim (Bool-cases (text_lt k j)) [
    | inl l ↦ rw (e, l, text_eq_refl k) refl
    | inr l ↦ rw (e, l, e) (get-insert_self k v m)
  ]
]

pub get-insert_ne :
    (k j : Text) (v : Value) (m : Map) → text_eq k j ≡ false → get j (insert k v m) ≡ get j m
unfolding get insert
get-insert_ne k j v end h = rw h refl
get-insert_ne k j v (entry i w m) h = elim (Bool-cases (text_eq i k)) [
  | inl e ↦ let same = (text_eq_iff i k).0 e in rw (e, same, h) refl
  | inr e ↦ elim (Bool-cases (text_lt k i)) [
    | inl l ↦ rw (e, l, h) refl
    | inr l ↦ rw (e, l, get-insert_ne k j v m h) refl
  ]
]

pub insert-insert : (k : Text) (v : Value) (m : Map) → insert k v (insert k v m) ≡ insert k v m
unfolding insert
insert-insert k v end = rw (text_eq_refl k) refl
insert-insert k v (entry j w m) = elim (Bool-cases (text_eq j k)) [
  | inl e ↦ rw (e, text_eq_refl k) refl
  | inr e ↦ elim (Bool-cases (text_lt k j)) [
    | inl l ↦ rw (e, l, text_eq_refl k) refl
    | inr l ↦ rw (e, l, e, l, insert-insert k v m) refl
  ]
]
