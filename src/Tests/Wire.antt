-- ===== src/Tests/Wire.antt =====
-- A concrete text of one line for a JSON value, and its reader: the place of serde_json's text.
use mathlib.Core.List.{reverse, reverse_aux}
use mipsorcu.DeliveryLog.Replay.{IsLine}
use mipsorcu.Json.{
  Value, Values, Map, null, boolean, number, unsigned, negative, float, string, array, object, nil,
  cons, end, entry,
}
use mipsorcu.Prelude.{
  ap, ℕ, zero, suc, ◌+◌, ◌-◌, ◌≤◌, ◌==◌, Bool, true, false, not, ◌&&◌, all, Text, is_blank, trim,
  trim_start, is_whitespace, [], ◌∷◌, ◌≡◌, refl, arith, if◌then◌else◌, is_empty,
}

write_text : Text → Text → Text
write_text [] r = 19 ∷ r
write_text (c ∷ s) r = (c + 20) ∷ write_text s r

mutual
  unfolding write_text

  write : Value → Text → Text
  write null r = 20 ∷ r
  write (boolean true) r = 21 ∷ r
  write (boolean false) r = 22 ∷ r
  write (number (unsigned n)) r = 23 ∷ (n + 20) ∷ r
  write (number (negative n)) r = 24 ∷ (n + 20) ∷ r
  write (number (float n)) r = 25 ∷ (n + 20) ∷ r
  write (string s) r = 26 ∷ write_text s r
  write (array vs) r = 27 ∷ write_values vs r
  write (object m) r = 30 ∷ write_map m r

  write_values : Values → Text → Text
  write_values nil r = 28 ∷ r
  write_values (cons v vs) r = 29 ∷ write v (write_values vs r)

  write_map : Map → Text → Text
  write_map end r = 28 ∷ r
  write_map (entry k v m) r = 29 ∷ write_text k (write v (write_map m r))

mutual
  size : Value → ℕ
  size (array vs) = suc (size_values vs)
  size (object m) = suc (size_map m)
  size _ = 1

  size_values : Values → ℕ
  size_values nil = 1
  size_values (cons v vs) = suc (size v + size_values vs)

  size_map : Map → ℕ
  size_map end = 1
  size_map (entry k v m) = suc (size v + size_map m)

read_text : Text → Text × Text
read_text [] = ([], [])
read_text (c ∷ s) = let (t, r) = read_text s in if c == 19 then ([], s) else ((c - 20) ∷ t, r)

read_number : Text → ℕ × Text
read_number [] = (0, [])
read_number (n ∷ s) = (n - 20, s)

mutual
  unfolding read_text read_number

  read : ℕ → Text → Value × Text
  read zero s = (null, s)
  read (suc f) [] = (null, [])
  read (suc f) (tag ∷ s) =
      let (vs, after_values) = read_values f s in
      let (m, after_map) = read_map f s in
      if tag == 20
      then (null, s)
      else if tag == 21
      then (boolean true, s)
      else if tag == 22
      then (boolean false, s)
      else if tag == 23
      then (number (unsigned (read_number s).0), (read_number s).1)
      else if tag == 24
      then (number (negative (read_number s).0), (read_number s).1)
      else if tag == 25
      then (number (float (read_number s).0), (read_number s).1)
      else if tag == 26
      then (string (read_text s).0, (read_text s).1)
      else if tag == 27
      then (array vs, after_values)
      else (object m, after_map)

  read_values : ℕ → Text → Values × Text
  read_values zero s = (nil, s)
  read_values (suc f) [] = (nil, [])
  read_values (suc f) (tag ∷ s) =
      let (v, after_value) = read f s in
      let (vs, after_values) = read_values f after_value in
      if tag == 28 then (nil, s) else (cons v vs, after_values)

  read_map : ℕ → Text → Map × Text
  read_map zero s = (end, s)
  read_map (suc f) [] = (end, [])
  read_map (suc f) (tag ∷ s) =
      let (k, after_key) = read_text s in
      let (v, after_value) = read f after_key in
      let (m, after_map) = read_map f after_value in
      if tag == 28 then (end, s) else (entry k v m, after_map)

read_text-write_text : (s r : Text) → read_text (write_text s r) ≡ (s, r)
unfolding read_text write_text
read_text-write_text [] r = refl
read_text-write_text (c ∷ s) r = ground (arith, read_text-write_text s r)

mutual
  unfolding read write size read_number

  read-write : (f : ℕ) (v : Value) (r : Text) → size v ≤ f → read f (write v r) ≡ (v, r)
  read-write zero null r p = absurd (omega arith)
  read-write zero (boolean b) r p = absurd (omega arith)
  read-write zero (number n) r p = absurd (omega arith)
  read-write zero (string s) r p = absurd (omega arith)
  read-write zero (array vs) r p = absurd (omega arith)
  read-write zero (object m) r p = absurd (omega arith)
  read-write (suc f) null r p = refl
  read-write (suc f) (boolean true) r p = refl
  read-write (suc f) (boolean false) r p = refl
  read-write (suc f) (number (unsigned n)) r p = ground arith
  read-write (suc f) (number (negative n)) r p = ground arith
  read-write (suc f) (number (float n)) r p = ground arith
  read-write (suc f) (string s) r p = ground (arith, read_text-write_text s r)
  read-write (suc f) (array vs) r p = ground (arith, read_values-write f vs r)
  read-write (suc f) (object m) r p = ground (arith, read_map-write f m r)

  read_values-write :
      (f : ℕ) (vs : Values) (r : Text)
      → size_values vs ≤ f
      → read_values f (write_values vs r) ≡ (vs, r)
  read_values-write zero nil r p = absurd (omega arith)
  read_values-write zero (cons v vs) r p = absurd (omega arith)
  read_values-write (suc f) nil r p = refl
  read_values-write (suc f) (cons v vs) r p =
      ground (arith, read-write f v (write_values vs r), read_values-write f vs r)

  read_map-write :
      (f : ℕ) (m : Map) (r : Text) → size_map m ≤ f → read_map f (write_map m r) ≡ (m, r)
  read_map-write zero end r p = absurd (omega arith)
  read_map-write zero (entry k v m) r p = absurd (omega arith)
  read_map-write (suc f) end r p = refl
  read_map-write (suc f) (entry k v m) r p = ground (
    arith,
    read_text-write_text k (write v (write_map m r)),
    read-write f v (write_map m r),
    read_map-write f m r,
  )

abbrev plain : ℕ → Bool
plain c = not (c == 10) && not (c == 13)

plain-write_text : (s r : Text) → all plain r ≡ true → all plain (write_text s r) ≡ true
unfolding write_text
plain-write_text [] r p = ground arith
plain-write_text (c ∷ s) r p = ground (arith, plain-write_text s r p)

mutual
  unfolding write

  plain-write : (v : Value) (r : Text) → all plain r ≡ true → all plain (write v r) ≡ true
  plain-write null r p = p
  plain-write (boolean true) r p = p
  plain-write (boolean false) r p = p
  plain-write (number (unsigned n)) r p = ground arith
  plain-write (number (negative n)) r p = ground arith
  plain-write (number (float n)) r p = ground arith
  plain-write (string s) r p = plain-write_text s r p
  plain-write (array vs) r p = plain-values vs r p
  plain-write (object m) r p = plain-map m r p

  plain-values :
      (vs : Values) (r : Text) → all plain r ≡ true → all plain (write_values vs r) ≡ true
  plain-values nil r p = p
  plain-values (cons v vs) r p = plain-write v (write_values vs r) (plain-values vs r p)

  plain-map : (m : Map) (r : Text) → all plain r ≡ true → all plain (write_map m r) ≡ true
  plain-map end r p = p
  plain-map (entry k v m) r p =
      plain-write_text k (write v (write_map m r)) (plain-write v (write_map m r) (plain-map m r p))

-- `{`, what the reader needs to know, the value
pub line_of : Value → Text
line_of v = 123 ∷ (size v + 20) ∷ write v []

pub value_of : Text → Value
value_of [] = null
value_of (c ∷ []) = null
value_of (c ∷ n ∷ s) = (read (n - 20) s).0

pub value_of-line_of : (v : Value) → value_of (line_of v) ≡ v
unfolding value_of line_of
value_of-line_of v = ap (λ p. p.0) (read-write (size v + 20 - 20) v [] (omega arith))

reverse_aux-nonempty : (s t : Text) → is_empty t ≡ false → is_empty (reverse_aux s t) ≡ false
reverse_aux-nonempty [] t p = p
reverse_aux-nonempty (c ∷ s) t p = reverse_aux-nonempty s (c ∷ t) refl

reverse-nonempty : (s : Text) → is_empty s ≡ false → is_empty (reverse s) ≡ false
reverse-nonempty [] p = p
reverse-nonempty (c ∷ s) p = reverse_aux-nonempty s (c ∷ []) refl

all-reverse_aux :
    (s t : Text) → all is_whitespace t ≡ false → all is_whitespace (reverse_aux s t) ≡ false
all-reverse_aux [] t p = p
all-reverse_aux (c ∷ s) t p = all-reverse_aux s (c ∷ t) (ground (arith, p))

trim_start-nonempty : (s : Text) → all is_whitespace s ≡ false → is_empty (trim_start s) ≡ false
unfolding trim_start
trim_start-nonempty [] p = cc
trim_start-nonempty (c ∷ s) p = ground (arith, trim_start-nonempty s)

not_blank : (s : Text) → is_empty (trim (123 ∷ s)) ≡ false
unfolding trim trim_start is_whitespace
not_blank s =
    let filled =
      trim_start-nonempty (reverse_aux s (123 ∷ [])) (all-reverse_aux s (123 ∷ []) refl) in
    reverse-nonempty (trim_start (reverse_aux s (123 ∷ []))) filled

pub line_of-IsLine : (v : Value) → IsLine (line_of v)
unfolding line_of is_blank
line_of-IsLine v = record {
  one_line = ground (arith, plain-write v [] refl);
  filled = not_blank ((size v + 20) ∷ write v []);
}
