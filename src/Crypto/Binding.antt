-- ===== src/Crypto/Binding.antt =====
-- A wrapped data key belongs to its secret and its key version: src/crypto.rs binds both into the
-- associated data of the wrapping.
use mipsorcu.Secrets.{parse_data_key}
use mipsorcu.Crates.{Crates, AeadLaws, JsonLaws, UuidLaws, Uuid}
use mipsorcu.Crypto.RoundTrip.{wrap_data_key-bytes, nonce_of, ciphertext_of, length_nonce}
use mipsorcu.Crypto.Seal.{wrap_data_key}
use mipsorcu.Crypto.{
  ciphertext_bytes, nonce_bytes, ok, end, Text, Bytes, parse_data_key, ℕ, KeyWrapContext,
  key_wrap_aad, key_wrap_bytes, unwrap_data_key,
}
use mipsorcu.Json.{null, Map, Value, unsigned, number, string, object, entry}
use mipsorcu.Prelude.{
  Result-cases, arith, zero, suc, bytes_eq, bytes_eq_iff, Bool-cases, inl, inr, ◌⊎◌, ◌∙◌,
  map_err-eq-ok, [], some, ◌≡◌, ◌≢◌, sym, ap,
}

abbrev number_of : Value → ℕ
number_of (number (unsigned n)) = n
number_of _ = 0

abbrev text_of : Value → Text
text_of (string s) = s
text_of _ = []

-- the value at a place of an object
abbrev value_at : ℕ → Map → Value
value_at n end = null
value_at zero (entry k v m) = v
value_at (suc n) (entry k v m) = value_at n m

abbrev fields : Value → Map
fields (object m) = m
fields _ = end

module _ (c : Crates) where
  -- Two messages that one key and one nonce seal to one ciphertext, with different associated data.
  pub record Forgery (key nonce sealed left_message right_message : Bytes) : Type 0 where
    pub left : Bytes
    pub right : Bytes
    pub differ : left ≢ right
    pub from_left : c.encrypt key nonce left left_message ≡ some sealed
    pub from_right : c.encrypt key nonce right right_message ≡ some sealed

  hyphenated-injective : (uuid : UuidLaws c) (u v : Uuid) → c.hyphenated u ≡ c.hyphenated v → u ≡ v
  hyphenated-injective uuid u v h =
      let same : some u ≡ some v =
        sym (uuid.parse-hyphenated u) ∙ ap c.parse_str h ∙ uuid.parse-hyphenated v in
      cc

  key_wrap_aad-injective :
      (uuid : UuidLaws c) (x y : KeyWrapContext) → key_wrap_aad c x ≡ key_wrap_aad c y → x ≡ y
  key_wrap_aad-injective uuid x y h =
      let version : x.key_version ≡ y.key_version = ap (λ v. number_of (value_at 1 (fields v))) h in
      let id : x.secret_id ≡ y.secret_id =
        hyphenated-injective uuid x.secret_id y.secret_id
          (ap (λ v. text_of (value_at 2 (fields v))) h) in
      λ i. record { secret_id = id i; key_version = version i }

  key_wrap_bytes-injective :
      (json : JsonLaws c) (uuid : UuidLaws c) (x y : KeyWrapContext) (b : Bytes)
      → key_wrap_bytes c x ≡ ok b
      → key_wrap_bytes c y ≡ ok b
      → x ≡ y
  unfolding key_wrap_bytes
  key_wrap_bytes-injective json uuid x y b p q = key_wrap_aad-injective uuid x y (
      json.to_vec-injective (key_wrap_aad c x) (key_wrap_aad c y) b (map_err-eq-ok _ _ p)
        (map_err-eq-ok _ _ q))

  unwrap_data_key-opened :
      (master_key : Bytes) (context : KeyWrapContext) (envelope data_key b : Bytes)
      → key_wrap_bytes c context ≡ ok b
      → unwrap_data_key c master_key context envelope ≡ ok data_key
      → c.decrypt master_key (nonce_bytes envelope) b (ciphertext_bytes envelope) ≡ some data_key
  unfolding unwrap_data_key parse_data_key
  unwrap_data_key-opened master_key context envelope data_key b e h = ground arith

  unwrap_data_key-bytes :
      (master_key : Bytes) (context : KeyWrapContext) (envelope data_key : Bytes)
      → unwrap_data_key c master_key context envelope ≡ ok data_key
      → (b : Bytes) × (key_wrap_bytes c context ≡ ok b)
        × (c.decrypt master_key (nonce_bytes envelope) b (ciphertext_bytes envelope)
            ≡ some data_key)
  unfolding unwrap_data_key
  unwrap_data_key-bytes master_key context envelope data_key h =
      elim (Result-cases (key_wrap_bytes c context)) [
        | inl (b, e) ↦ (b, e, unwrap_data_key-opened master_key context envelope data_key b e h)
        | inr (x, e) ↦ ground arith
      ]

  module _ (master_key : Bytes) (context : KeyWrapContext) (data_key : Bytes) (k : ℕ)
      (envelope : Bytes) (k' : ℕ) where
    abbrev pub IsForged : Bytes → Type 0
    IsForged other_key =
        Forgery master_key (nonce_bytes envelope) (ciphertext_bytes envelope) data_key other_key

    -- the parts of a wrapped key, opened under another context
    other_context :
        (other_key b b' n w : Bytes)
        → AeadLaws c
        → b ≢ b'
        → nonce_bytes envelope ≡ n
        → ciphertext_bytes envelope ≡ w
        → c.encrypt master_key n b data_key ≡ some w
        → c.decrypt master_key (nonce_bytes envelope) b' (ciphertext_bytes envelope)
          ≡ some other_key
        → IsForged other_key
    other_context other_key b b' n w aead differ at_n at_w sealed opened = record {
      left = b;
      right = b';
      differ = differ;
      from_left = rw (at_n, at_w) sealed;
      from_right =
          aead.encrypt-decrypt master_key (nonce_bytes envelope) b' other_key
            (ciphertext_bytes envelope) opened;
    }

    -- A wrapped data key that unwraps under the same master key and some context was wrapped under
    -- that context: the secret and the key version are the same. Otherwise the two data keys
    -- are sealed to the envelope's one ciphertext with different associated data.
    pub unwrap_data_key-SameContext :
        (other : KeyWrapContext) (other_key : Bytes)
        → AeadLaws c
        → JsonLaws c
        → UuidLaws c
        → wrap_data_key c master_key context data_key k ≡ (ok envelope, k')
        → unwrap_data_key c master_key other envelope ≡ ok other_key
        → (context ≡ other) ⊎ IsForged other_key
    unwrap_data_key-SameContext other other_key aead json uuid h u =
        let (b, n, w, e, sealed, parts) =
          wrap_data_key-bytes c master_key context data_key k envelope k' h in
        let (accepted, length_w, length_envelope, made) = parts in
        let long =
          length_nonce c master_key context data_key k envelope k' n w length_w made
            length_envelope in
        let at_n = nonce_of c master_key context data_key k envelope k' n w long made in
        let at_w = ciphertext_of c master_key context data_key k envelope k' n w long made in
        let (b', e', opened) = unwrap_data_key-bytes master_key other envelope other_key u in
        elim (Bool-cases (bytes_eq b b')) [
          | inl same ↦
              let equal = (bytes_eq_iff b b').0 same in
              inl (key_wrap_bytes-injective json uuid context other b e (rw (← equal) at e'))
          | inr apart ↦
              let differ : b ≢ b' = λ q. ground (arith, bytes_eq_iff b b', q) in
              inr (other_context other_key b b' n w aead differ at_n at_w sealed opened)
        ]
