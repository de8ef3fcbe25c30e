-- ===== src/Crates.antt =====
-- What the program calls in other crates, as functions over plain values: a hash, signatures,
-- authenticated encryption, JSON text, hexadecimal text, UUIDs, timestamps and random bytes.
-- A UUID and an `OffsetDateTime` are opaque values, held as numbers that nothing here looks into.
-- The laws state what those crates document; each theorem takes the ones that it needs.
use mipsorcu.Json.{object, is_flat, Map, Value, Number}
use mipsorcu.Prelude.{
  ltb, all, ℕ, ◌+◌, ◌≡◌, Bool, true, Bytes, Text, codes, length, Option, some, Result, ok, ◌++◌,
  trim,
}

abbrev pub Uuid : Type 0
Uuid = ℕ

abbrev pub OffsetDateTime : Type 0
OffsetDateTime = ℕ

pub record Crates : Type 0 where
  -- sha2: `Sha256::digest`
  pub sha256 : Bytes → Bytes
  -- ed25519_dalek: `SigningKey::verifying_key`, `sign`, `VerifyingKey::from_bytes`, `verify`
  pub verifying_key : Bytes → Bytes
  pub ed25519_sign : Bytes → Bytes → Bytes
  pub ed25519_key_ok : Bytes → Bool
  pub ed25519_verify : Bytes → Bytes → Bytes → Bool
  -- chacha20poly1305: `new_from_slice` accepts the key; `encrypt` and `decrypt` take the key, the
  -- nonce, the associated data and the message
  pub cipher_key_ok : Bytes → Bool
  pub encrypt : Bytes → Bytes → Bytes → Bytes → Option Bytes
  pub decrypt : Bytes → Bytes → Bytes → Bytes → Option Bytes
  -- serde_json: `to_vec`, the fields of an object in the order given; `Number::to_string`; `from_str`
  pub to_vec : Value → Result Text Bytes
  pub number_to_string : Number → Text
  pub from_str : Text → Option Value
  -- serde_json: `to_string`; std: `str::from_utf8`
  pub to_string : Value → Result Text Text
  pub from_utf8 : Bytes → Option Text
  -- hmac and sha3: `new_from_slice`, `update` and `finalize` on a key and a message
  pub hmac_sha3_256 : Bytes → Bytes → Option Bytes
  -- hex: `encode`, `decode`
  pub hex_encode : Bytes → Text
  pub hex_decode : Text → Option Bytes
  -- uuid: `parse_str`, `hyphenated`, `get_version() == Some(Random)`, `from_random_bytes`
  pub parse_str : Text → Option Uuid
  pub hyphenated : Uuid → Text
  pub is_v4 : Uuid → Bool
  pub from_random_bytes : Bytes → Uuid
  -- time: RFC 3339 text, `offset() == UTC`, `to_offset(UTC)`
  pub parse_rfc3339 : Text → Option OffsetDateTime
  pub format_rfc3339 : OffsetDateTime → Result Text Text
  pub offset_is_utc : OffsetDateTime → Bool
  pub to_offset_utc : OffsetDateTime → OffsetDateTime
  -- getrandom: the bytes of the n-th call of `fill` in a run, for a buffer of the given length
  pub fill : ℕ → ℕ → Option Bytes

pub record Sha256Laws (c : Crates) : Type 0 where
  pub length-sha256 : (m : Bytes) → length (c.sha256 m) ≡ 32

pub record Ed25519Laws (c : Crates) : Type 0 where
  pub length-sign : (key m : Bytes) → length (c.ed25519_sign key m) ≡ 64
  pub verify-sign :
      (key m : Bytes) → c.ed25519_verify (c.verifying_key key) m (c.ed25519_sign key m) ≡ true

-- `encrypt` appends a tag of 16 bytes; `decrypt` inverts it and checks the tag.
pub record AeadLaws (c : Crates) : Type 0 where
  pub length-encrypt : (k n a m x : Bytes) → c.encrypt k n a m ≡ some x → length x ≡ length m + 16
  pub decrypt-encrypt :
      (k n a m x : Bytes) → c.encrypt k n a m ≡ some x → c.decrypt k n a x ≡ some m
  pub encrypt-decrypt :
      (k n a m x : Bytes) → c.decrypt k n a x ≡ some m → c.encrypt k n a m ≡ some x
  pub key_ok_32 : (k : Bytes) → length k ≡ 32 → c.cipher_key_ok k ≡ true

-- A JSON text determines the value that it was written from.
pub record JsonLaws (c : Crates) : Type 0 where
  pub to_vec-injective : (v w : Value) (b : Bytes) → c.to_vec v ≡ ok b → c.to_vec w ≡ ok b → v ≡ w

-- Writing a value whose keys are texts does not fail.
pub record JsonTotal (c : Crates) : Type 0 where
  pub written : Value → Bytes
  pub to_vec-written : (v : Value) → c.to_vec v ≡ ok (written v)

pub record Utf8Laws (c : Crates) : Type 0 where
  pub from_utf8-ascii : (s : Text) → all (λ x. ltb x 0x80) s ≡ true → c.from_utf8 s ≡ some s

-- An object of texts and unsigned numbers under ascending keys is read back as it was written.
pub record JsonTextLaws (c : Crates) : Type 0 where
  pub from_str-to_string :
      (m : Map) (t : Text)
      → is_flat m ≡ true
      → c.to_string (object m) ≡ ok t
      → c.from_str t ≡ some (object m)

pub record HexLaws (c : Crates) : Type 0 where
  pub decode-encode : (b : Bytes) → c.hex_decode (c.hex_encode b) ≡ some b

pub record UuidLaws (c : Crates) : Type 0 where
  pub parse-hyphenated : (u : Uuid) → c.parse_str (c.hyphenated u) ≡ some u
  pub is_v4-from_random_bytes : (b : Bytes) → c.is_v4 (c.from_random_bytes b) ≡ true

-- The text of a UTC time ends in `Z`, has no blank to trim, and is read back as that time.
pub record TimeLaws (c : Crates) : Type 0 where
  pub utc_idem : (t : OffsetDateTime) → c.to_offset_utc (c.to_offset_utc t) ≡ c.to_offset_utc t
  pub utc_is_utc : (t : OffsetDateTime) → c.offset_is_utc (c.to_offset_utc t) ≡ true
  pub format_blank :
      (t : OffsetDateTime) (s : Text) → c.format_rfc3339 (c.to_offset_utc t) ≡ ok s → trim s ≡ s
  pub format_z :
      (t : OffsetDateTime) (s : Text)
      → c.format_rfc3339 (c.to_offset_utc t) ≡ ok s
      → (body : Text) × (s ≡ body ++ codes "Z")
  pub parse-format :
      (t : OffsetDateTime) (s : Text)
      → c.format_rfc3339 (c.to_offset_utc t) ≡ ok s
      → c.parse_rfc3339 s ≡ some (c.to_offset_utc t)

pub record RandomLaws (c : Crates) : Type 0 where
  pub length-fill : (i n : ℕ) (b : Bytes) → c.fill i n ≡ some b → length b ≡ n
