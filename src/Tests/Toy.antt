-- ===== src/Tests/Toy.antt =====
-- Concrete functions in the place of the other crates, and the laws that they meet.
use mipsorcu.Crates.{
  Crates, Sha256Laws, Ed25519Laws, AeadLaws, JsonLaws, JsonTotal, Utf8Laws, JsonTextLaws, HexLaws,
  UuidLaws, TimeLaws, RandomLaws,
}
use mipsorcu.Prelude.{
  false, ℕ, zero, suc, ◌+◌, ◌-◌, ◌≡◌, refl, true, Bytes, Text, bytes_eq, bytes_eq_refl,
  bytes_eq_iff, length, length-append, take, take-append, replicate, Option, none, some, ok, [],
  ◌∷◌, ◌++◌, ◌==◌, if◌then◌else◌, trim, arith, is_whitespace,
}
use mipsorcu.Json.{object}
use mipsorcu.Tests.Wire.{line_of, value_of, value_of-line_of}
use mipsorcu.Tests.Codec.{encode, encode_lem}

-- cut or filled up with zeros to a length
unfoldable pub pad : ℕ → Bytes → Bytes
pad zero m = []
pad (suc n) [] = 0 ∷ pad n []
pad (suc n) (x ∷ m) = x ∷ pad n m

length-pad : (n : ℕ) (m : Bytes) → length (pad n m) ≡ n
unfolding pad
length-pad zero m = refl
length-pad (suc n) [] = omega (arith, length-pad n [])
length-pad (suc n) (x ∷ m) = omega (arith, length-pad n m)

length-replicate : (n : ℕ) (x : ℕ) → length (replicate n x) ≡ n
length-replicate zero x = refl
length-replicate (suc n) x = omega (arith, length-replicate n x)

abbrev seal : Bytes → Bytes → Bytes
seal k a = pad 16 (a ++ k)

open_sealed : Bytes → Bytes → Bytes → Option Bytes
open_sealed k a x =
    let n = length x - 16 in if bytes_eq (take n x ++ seal k a) x then some (take n x) else none

read_uuid : Text → Option ℕ
read_uuid [] = none
read_uuid (u ∷ []) = some u
read_uuid (u ∷ v ∷ r) = none

-- past the blanks of Unicode
abbrev far : ℕ
far = 0x10000

read_time : Text → Option ℕ
read_time [] = none
read_time (t ∷ r) = some (t - far)

head_byte : Bytes → ℕ
head_byte [] = 0
head_byte (x ∷ m) = x

unfoldable pub toy : Crates
unfolding pad bytes_eq encode open_sealed read_uuid read_time head_byte
toy = record {
  sha256 = pad 32;
  verifying_key = λ k. k;
  ed25519_sign = λ k m. pad 64 (k ++ m);
  ed25519_key_ok = λ k. true;
  ed25519_verify = λ k m s. bytes_eq s (pad 64 (k ++ m));
  cipher_key_ok = λ k. length k == 32;
  encrypt = λ k n a m. some (m ++ seal k a);
  decrypt = λ k n a x. open_sealed k a x;
  to_vec = λ v. ok (encode v []);
  number_to_string = λ n. [];
  from_str = λ s. some (value_of s);
  to_string = λ v. ok (line_of v);
  from_utf8 = λ b. some b;
  hmac_sha3_256 = λ k m. some (pad 32 (k ++ m));
  hex_encode = λ b. b;
  hex_decode = λ s. some s;
  parse_str = read_uuid;
  hyphenated = λ u. u ∷ [];
  is_v4 = λ u. true;
  from_random_bytes = head_byte;
  parse_rfc3339 = read_time;
  format_rfc3339 = λ t. ok ((t + far) ∷ b'Z' ∷ []);
  offset_is_utc = λ t. true;
  to_offset_utc = λ t. t;
  fill = λ i n. some (replicate n i);
}

pub toy-Sha256Laws : Sha256Laws toy
unfolding toy
toy-Sha256Laws = record { length-sha256 = length-pad 32 }

pub toy-Ed25519Laws : Ed25519Laws toy
unfolding toy
toy-Ed25519Laws = record {
  length-sign = λ k m. length-pad 64 (k ++ m);
  verify-sign = λ k m. bytes_eq_refl (pad 64 (k ++ m));
}

pub toy-JsonLaws : JsonLaws toy
unfolding toy
toy-JsonLaws = record { to_vec-injective = λ v w b p q. encode_lem v w (cc) }

pub toy-JsonTotal : JsonTotal toy
unfolding toy
toy-JsonTotal = record { written = λ v. encode v []; to_vec-written = λ v. refl }

pub toy-Utf8Laws : Utf8Laws toy
unfolding toy
toy-Utf8Laws = record { from_utf8-ascii = λ s p. refl }

pub toy-JsonTextLaws : JsonTextLaws toy
unfolding toy
toy-JsonTextLaws = record {
  from_str-to_string = λ m t f p. ground (arith, value_of-line_of (object m), p);
}

pub toy-HexLaws : HexLaws toy
unfolding toy
toy-HexLaws = record { decode-encode = λ b. refl }

pub toy-UuidLaws : UuidLaws toy
unfolding toy
toy-UuidLaws = record { parse-hyphenated = λ u. refl; is_v4-from_random_bytes = λ b. refl }

pub toy-RandomLaws : RandomLaws toy
unfolding toy
toy-RandomLaws = record { length-fill = λ i n b p. ground (arith, length-replicate n i) }

not_blank : (t : ℕ) → is_whitespace (t + far) ≡ false
unfolding is_whitespace
not_blank t = ground arith

trim_time : (t : ℕ) → trim ((t + far) ∷ b'Z' ∷ []) ≡ (t + far) ∷ b'Z' ∷ []
unfolding trim
trim_time t = rw (not_blank t) refl

pub toy-TimeLaws : TimeLaws toy
unfolding toy
toy-TimeLaws = record {
  utc_idem = λ t. refl;
  utc_is_utc = λ t. refl;
  format_blank = λ t s p. ground (arith, trim_time t);
  format_z = λ t s p. ((t + far) ∷ [], ground arith);
  parse-format = λ t s p. ground arith;
}

open-seal : (k a m : Bytes) → open_sealed k a (m ++ seal k a) ≡ some m
unfolding open_sealed
open-seal k a m =
    let n : length (m ++ seal k a) - 16 ≡ length m =
      omega (arith, length-append m (seal k a), length-pad 16 (a ++ k)) in
    rw (n, take-append m (seal k a), bytes_eq_refl (m ++ seal k a))

seal-open : (k a x m : Bytes) → open_sealed k a x ≡ some m → m ++ seal k a ≡ x
unfolding open_sealed
seal-open k a x m h = ground (arith, bytes_eq_iff (take (length x - 16) x ++ seal k a) x)

pub toy-AeadLaws : AeadLaws toy
unfolding toy
toy-AeadLaws = record {
  length-encrypt =
      λ k n a m x p. ground (arith, length-append m (seal k a), length-pad 16 (a ++ k));
  decrypt-encrypt = λ k n a m x p. ground (arith, open-seal k a m);
  encrypt-decrypt = λ k n a m x p. ground (arith, seal-open k a x m);
  key_ok_32 = λ k p. ground arith;
}
