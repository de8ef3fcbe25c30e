-- ===== src/Json/Readable.antt =====
-- The values that serde_json writes as text and reads back as they were. It reads to a depth of 127;
-- a float may change (Cargo.toml does not enable `float_roundtrip`); a map holds each key once, in
-- the order of the keys; an unsigned number is a u64.
use mipsorcu.Json.{
  Value, Values, Map, Number, unsigned, negative, float, null, boolean, number, string, array,
  object, nil, cons, end, entry, key_below,
}
use mipsorcu.Prelude.{ℕ, zero, suc, ◌^◌, ◌-◌, Bool, true, false, ◌&&◌, leb}

abbrev is_exact : Number → Bool
is_exact (unsigned n) = leb n (2 ^ 64 - 1)
is_exact (negative n) = true
is_exact (float n) = false

unfoldable mutual
  unfolding key_below

  -- The first argument is the number of arrays and objects that may stand around each other.
  pub is_readable : ℕ → Value → Bool
  is_readable depth null = true
  is_readable depth (boolean b) = true
  is_readable depth (number n) = is_exact n
  is_readable depth (string s) = true
  is_readable zero (array values) = false
  is_readable (suc depth) (array values) = are_readable depth values
  is_readable zero (object m) = false
  is_readable (suc depth) (object m) = is_readable_map depth m

  pub are_readable : ℕ → Values → Bool
  are_readable depth nil = true
  are_readable depth (cons v values) = is_readable depth v && are_readable depth values

  pub is_readable_map : ℕ → Map → Bool
  is_readable_map depth end = true
  is_readable_map depth (entry k v m) =
      is_readable depth v && key_below k m && is_readable_map depth m
