-- ===== src/Crypto/RoundTrip.antt =====
-- What `encrypt_secret` seals, `decrypt_secret` opens; what `wrap_data_key` wraps, `unwrap_data_key`
-- unwraps.
use mipsorcu.Aad.{AadV1, to_stored_context}
use mipsorcu.Crates.{Crates, AeadLaws}
use mipsorcu.Crypto.Seal.{encrypt_secret, wrap_data_key}
use mipsorcu.Crypto.{
  ciphertext_bytes, nonce_bytes, parse_data_key, unwrap_data_key, KeyWrapContext, EncryptedPayload,
  aad_bytes, key_wrap_bytes, cipher_from_data_key, cipher_from_master_key, decrypt_secret,
}
use mipsorcu.Prelude.{
  take-append, drop-append, length-append, ◌∙◌, ap, ◌+◌, suc, Option-cases, ◌++◌, inr, inl, ◌∷◌,
  true, Result-cases, ℕ, ◌≡◌, refl, Bytes, length, some, ok, arith,
}
use mipsorcu.Secrets.{parse_data_key, parse_envelope, new_ciphertext}

module _ (c : Crates) where
  module _ (data_key : Bytes) (aad : AadV1) (plaintext : Bytes) (k : ℕ) (p : EncryptedPayload)
      (k' : ℕ) where
    encrypted :
        (b : Bytes)
        → aad_bytes c aad ≡ ok b
        → encrypt_secret c data_key aad plaintext k ≡ (ok p, k')
        → c.encrypt data_key p.nonce b plaintext ≡ some p.ciphertext
    unfolding encrypt_secret new_ciphertext
    encrypted b e h = ground arith

    key_accepted :
        encrypt_secret c data_key aad plaintext k ≡ (ok p, k') → c.cipher_key_ok data_key ≡ true
    unfolding encrypt_secret
    key_accepted h = ground arith

    -- the context that stands beside the ciphertext is the one of the associated data
    pub encrypt_secret-aad_context :
        encrypt_secret c data_key aad plaintext k ≡ (ok p, k')
        → to_stored_context c aad ≡ ok p.aad_context
    unfolding encrypt_secret
    encrypt_secret-aad_context h = ground arith

    -- the canonical bytes that a plaintext was sealed with
    pub encrypt_secret-bytes :
        encrypt_secret c data_key aad plaintext k ≡ (ok p, k')
        → (b : Bytes) × (aad_bytes c aad ≡ ok b)
          × (c.encrypt data_key p.nonce b plaintext ≡ some p.ciphertext)
    unfolding encrypt_secret
    encrypt_secret-bytes h = elim (Result-cases (aad_bytes c aad)) [
      | inl (b, e) ↦ (b, e, encrypted b e h)
      | inr (x, e) ↦ ground arith
    ]

    -- What `encrypt_secret` seals under a data key and associated data, `decrypt_secret` opens under
    -- the same, given the documented behaviour of the cipher.
    pub decrypt_secret-encrypt_secret :
        AeadLaws c
        → encrypt_secret c data_key aad plaintext k ≡ (ok p, k')
        → decrypt_secret c data_key aad p.nonce p.ciphertext ≡ ok plaintext
    unfolding decrypt_secret cipher_from_data_key
    decrypt_secret-encrypt_secret aead h =
        let (b, e, sealed) = encrypt_secret-bytes h in
        rw
          (e, key_accepted h, aead.decrypt-encrypt data_key p.nonce b plaintext p.ciphertext sealed)
          refl

  module _ (master_key : Bytes) (context : KeyWrapContext) (data_key : Bytes) (k : ℕ)
      (envelope : Bytes) (k' : ℕ) where
    -- the envelope holds the nonce and the sealed key, at the lengths that are checked
    abbrev pub IsEnvelope : Bytes → Bytes → Type 0
    IsEnvelope n w =
        (c.cipher_key_ok master_key ≡ true)
        × (length w ≡ 48)
        × (length envelope ≡ 73)
        × (envelope ≡ 1 ∷ (n ++ w))

    pub length_nonce :
        (n w : Bytes)
        → length w ≡ 48
        → envelope ≡ 1 ∷ (n ++ w)
        → length envelope ≡ 73
        → length n ≡ 24
    length_nonce n w p q r =
        let all : length envelope ≡ suc (length n + length w) =
          ap length q ∙ ap suc (length-append n w) in
        omega arith

    pub nonce_of :
        (n w : Bytes) → length n ≡ 24 → envelope ≡ 1 ∷ (n ++ w) → nonce_bytes envelope ≡ n
    nonce_of n w p q = rw (q, ← p) (take-append n w)

    pub ciphertext_of :
        (n w : Bytes) → length n ≡ 24 → envelope ≡ 1 ∷ (n ++ w) → ciphertext_bytes envelope ≡ w
    ciphertext_of n w p q = rw (q, ← p) (drop-append n w)

    wrapped_with :
        (b n w : Bytes)
        → key_wrap_bytes c context ≡ ok b
        → c.fill k 24 ≡ some n
        → c.encrypt master_key n b data_key ≡ some w
        → wrap_data_key c master_key context data_key k ≡ (ok envelope, k')
        → (c.cipher_key_ok master_key ≡ true)
          × (length w ≡ 48)
          × (length envelope ≡ 73)
          × (envelope ≡ 1 ∷ (n ++ w))
    unfolding wrap_data_key cipher_from_master_key parse_envelope
    wrapped_with b n w e f g h = ground arith

    pub wrap_data_key-bytes :
        wrap_data_key c master_key context data_key k ≡ (ok envelope, k')
        → (b n w : Bytes) × (key_wrap_bytes c context ≡ ok b)
          × (c.encrypt master_key n b data_key ≡ some w)
          × IsEnvelope n w
    unfolding wrap_data_key
    wrap_data_key-bytes h = elim (Result-cases (key_wrap_bytes c context)) [
      | inr (x, e) ↦ ground arith
      | inl (b, e) ↦ elim (Option-cases (c.fill k 24)) [
        | inl f ↦ ground arith
        | inr (n, f) ↦ elim (Option-cases (c.encrypt master_key n b data_key)) [
          | inl g ↦ ground arith
          | inr (w, g) ↦ (b, n, w, e, g, wrapped_with b n w e f g h)
        ]
      ]
    ]

    -- What `wrap_data_key` wraps under a master key and a context, `unwrap_data_key` unwraps under
    -- the same, given the documented behaviour of the cipher: the nonce and the sealed key are
    -- found again at their places in the envelope, and the length checks pass.
    pub unwrap_data_key-wrap_data_key :
        AeadLaws c
        → wrap_data_key c master_key context data_key k ≡ (ok envelope, k')
        → unwrap_data_key c master_key context envelope ≡ ok data_key
    unfolding unwrap_data_key cipher_from_master_key parse_data_key
    unwrap_data_key-wrap_data_key aead h =
        let (b, n, w, e, sealed, parts) = wrap_data_key-bytes h in
        let (accepted, length_w, length_envelope, made) = parts in
        let length_n = length_nonce n w length_w made length_envelope in
        let opened = aead.decrypt-encrypt master_key n b data_key w sealed in
        let length_sealed = aead.length-encrypt master_key n b data_key w sealed in
        let length_key : length data_key ≡ 32 = omega arith in
        rw (e, accepted, nonce_of n w length_n made, ciphertext_of n w length_n made, opened)
          (rw length_key refl)
