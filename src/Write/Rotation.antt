-- ===== src/Write/Rotation.antt =====
-- A new version of an existing secret, prepared under a key ring: src/write/prepare.rs, and
-- src/read.rs, which reads it back.

use mipsorcu.Crypto.RoundTrip.{unwrap_data_key-wrap_data_key}
use mipsorcu.Aad.RoundTrip.{IsValid}
use mipsorcu.Write.RoundTrip.{next_version_lem, some-chosen}
use mipsorcu.Keyring.Lookup.{active-from_key_entries}
use mipsorcu.Read.{decrypt_current_secret_version_with_keyring}
use mipsorcu.Draws.{>>=-eq-ok, lift, from-eq-ok}
use mathlib.Core.Option.{some}
use mipsorcu.Write.Prepared.{
  decrypt-prepared_with_keyring, row_of, prepare_secret_version_with_data_key-sealed,
}
use mipsorcu.Errors.{crypto, CryptoError}
use mipsorcu.Authorization.{VerifiedJwtClaims}
use mipsorcu.Keyring.{active, from_key_entries, MasterKeyRing}
use mipsorcu.Write.Keyed.{prepare_existing_secret_version_with_keyring, open_current}
use mipsorcu.Write.{
  row_aad, from, next_metadata, SecretWriteError, encrypt_rotate, Draw,
  prepare_secret_version_with_data_key, next_version, wrap_data_key, PreparedSecretVersion,
  ExistingSecretVersionInput, rewrap,
}
use mipsorcu.Crates.{TimeLaws, UuidLaws, AeadLaws, Crates}
use mathlib.Core.Option
use mipsorcu.Prelude.{
  ◌∙◌, ap, err, false, is_blank, true, subst, Result, arith, List, ◌+◌, ok, ◌≡◌, Bytes, ℕ, refl,
}

err_is_not_ok {ℓ} :
    {E A : Type 0} {C : Type ℓ} {e : E} {a : A} {k k' : ℕ}
    → ◌≡◌ {A = Result E A × ℕ} (err e, k) (ok a, k')
    → C
err_is_not_ok h = cc (ap (λ x. x.0) h)

module _ (c : Crates) where
  -- the steps of a new version that is rewrapped
  rewrap-steps :
      (existing : ExistingSecretVersionInput) (version : ℕ) (data_key : Bytes) (key_version : ℕ)
      (master_key : Bytes) (k : ℕ) (p : PreparedSecretVersion) (k' : ℕ)
      → rewrap c existing version data_key (key_version, master_key) k ≡ (ok p, k')
      → (wrapped : Bytes) × (k1 : ℕ) × (wrap_data_key c master_key
            (record { secret_id = existing.current.secret_id; key_version = key_version })
            data_key
            k
          ≡ (ok wrapped, k1))
        × (prepare_secret_version_with_data_key c encrypt_rotate
              (next_metadata c existing version key_version wrapped)
              data_key
              existing.plaintext
              k1
            ≡ (ok p, k'))
  unfolding rewrap
  rewrap-steps existing version data_key key_version master_key k p k' h =
      let wrap : Draw CryptoError Bytes =
        wrap_data_key c master_key
          (record { secret_id = existing.current.secret_id; key_version = key_version }) data_key in
      let (wrapped, k1, e, rest) = >>=-eq-ok (from crypto wrap) _ k h in
      (wrapped, k1, from-eq-ok crypto wrap k e, rest)

  open_current-version :
      (ring : MasterKeyRing) (existing : ExistingSecretVersionInput) (version : ℕ)
      (data_key : Bytes)
      → open_current c ring existing ≡ ok (version, data_key)
      → next_version existing.current.current_version ≡ ok version
  unfolding open_current
  open_current-version ring existing version data_key h = ground arith

  -- What a new version keeps of the secret, and what is new.
  pub record Continues (existing : ExistingSecretVersionInput) (key_version : ℕ)
      (p : PreparedSecretVersion) : Type 0 where
    pub secret_id : p.secret_id ≡ existing.current.secret_id
    pub owner_user_id : p.owner_user_id ≡ existing.current.owner_user_id
    pub classification : p.classification ≡ existing.current.classification
    pub version : p.version ≡ existing.current.current_version + 1
    pub key : p.key_version ≡ key_version

  prepared-Continues :
      (existing : ExistingSecretVersionInput) (version : ℕ) (key_version : ℕ)
      (wrapped data_key : Bytes) (k : ℕ) (p : PreparedSecretVersion) (k' : ℕ)
      → version ≡ existing.current.current_version + 1
      → prepare_secret_version_with_data_key c encrypt_rotate
          (next_metadata c existing version key_version wrapped)
          data_key
          existing.plaintext
          k
        ≡ (ok p, k')
      → Continues existing key_version p
  prepared-Continues existing version key_version wrapped data_key k p k' n h =
      let metadata = next_metadata c existing version key_version wrapped in
      let (id, k1, sealed, k2, e, is) =
        prepare_secret_version_with_data_key-sealed c encrypt_rotate metadata data_key
          existing.plaintext k p k' h in
      subst (Continues existing key_version) is (record {
        secret_id = refl;
        owner_user_id = refl;
        classification = refl;
        version = n;
        key = refl;
      })

  module _ (aead : AeadLaws c) (uuid : UuidLaws c) (time : TimeLaws c) (active_version : ℕ)
      (entries : List (ℕ × Bytes)) (ring : MasterKeyRing)
      (built : from_key_entries active_version entries ≡ ok ring) (claims : VerifiedJwtClaims)
      (existing : ExistingSecretVersionInput) (k : ℕ) (p : PreparedSecretVersion) (k' : ℕ) where
    rotated :
        (version : ℕ) (data_key : Bytes) (m : Draw SecretWriteError PreparedSecretVersion)
        → c.is_v4 existing.current.secret_id ≡ true
        → is_blank existing.current.classification ≡ false
        → claims.subject_user_id ≡ existing.current.owner_user_id
        → next_version existing.current.current_version ≡ ok version
        → Option.map (rewrap c existing version data_key) (active ring) ≡ some m
        → m k ≡ (ok p, k')
        → Continues existing active_version p
          × (decrypt_current_secret_version_with_keyring c ring (row_of claims p)
              ≡ ok existing.plaintext)
    rotated version data_key m v4 not_blank owner next chosen h =
        let (key, found, got) = active-from_key_entries active_version entries ring built in
        let is : rewrap c existing version data_key (active_version, key) ≡ m =
          some-chosen (rw found at chosen) in
        let (wrapped, k1, e, rest) =
          rewrap-steps existing version data_key active_version key k p k' (rw (← is) at h) in
        let metadata = next_metadata c existing version active_version wrapped in
        let (incremented, bounded) =
          next_version_lem c existing.current.current_version version next in
        let valid : IsValid c (row_aad metadata) = record {
          secret_id_v4 = v4;
          version_pos = omega arith;
          version_u32 = bounded;
          classification_not_blank = not_blank;
        } in
        let unwrapped =
          unwrap_data_key-wrap_data_key c key
            (record { secret_id = existing.current.secret_id; key_version = active_version })
            data_key k wrapped k1 aead e in
        (
          prepared-Continues existing version active_version wrapped data_key k1 p k' incremented
              rest,
          decrypt-prepared_with_keyring c aead uuid time claims encrypt_rotate metadata data_key
              existing.plaintext k1 p k' key valid owner unwrapped rest ring got,
        )

    chosen_of :
        (r : Result SecretWriteError (ℕ × Bytes)) (m : Draw SecretWriteError PreparedSecretVersion)
        → open_current c ring existing ≡ r
        → prepare_existing_secret_version_with_keyring c ring existing ≡ some m
        → m k ≡ (ok p, k')
        → (version : ℕ) × (data_key : Bytes) × (next_version existing.current.current_version
            ≡ ok version)
          × (Option.map (rewrap c existing version data_key) (active ring) ≡ some m)
    unfolding prepare_existing_secret_version_with_keyring
    chosen_of (err e) m is h done =
        let failed : lift (err e) ≡ m =
          some-chosen (rw (is, prepare_existing_secret_version_with_keyring) at h) in
        err_is_not_ok (ap (λ q. q k) failed ∙ done)
    chosen_of (ok (version, data_key)) m is h done = (
      version,
      data_key,
      open_current-version ring existing version data_key is,
      rw (is, prepare_existing_secret_version_with_keyring) at h,
    )

    -- A new version of an existing secret, prepared under a key ring that was built from entries,
    -- keeps the secret, its owner and its classification, has the next version number and the
    -- ring's active key version, and is decrypted under that ring for the owner, while it is the
    -- current version, to the plaintext that was written. The identifier of the secret is a UUID of
    -- version 4 and the classification is not blank, as their constructors ensure.
    pub decrypt-prepare_existing_with_keyring :
        (m : Draw SecretWriteError PreparedSecretVersion)
        → c.is_v4 existing.current.secret_id ≡ true
        → is_blank existing.current.classification ≡ false
        → claims.subject_user_id ≡ existing.current.owner_user_id
        → prepare_existing_secret_version_with_keyring c ring existing ≡ some m
        → m k ≡ (ok p, k')
        → Continues existing active_version p
          × (decrypt_current_secret_version_with_keyring c ring (row_of claims p)
              ≡ ok existing.plaintext)
    decrypt-prepare_existing_with_keyring m v4 not_blank owner h done =
        let (version, data_key, next, chosen) =
          chosen_of (open_current c ring existing) m refl h done in
        rotated version data_key m v4 not_blank owner next chosen done
