-- ===== src/Tests/Secrets.antt =====
-- Secrets written and read under a key ring of two keys, with the concrete functions of Toy.
use mipsorcu.Crypto.Binding.{unwrap_data_key-SameContext, IsForged}
use mipsorcu.Keyring.Lookup.{active-from_key_entries, get_key-from_key_entries}
use mipsorcu.Write.Rotation.{decrypt-prepare_existing_with_keyring, Continues}
use mipsorcu.Aad.RoundTrip.{IsValid, from_stored_context-to_stored_context, in_utc}
use mipsorcu.Json.{Value}
use mipsorcu.Crypto.RoundTrip.{decrypt_secret-encrypt_secret, unwrap_data_key-wrap_data_key}
use mipsorcu.Aad.{from_stored_context, to_stored_context, AadV1}
use mipsorcu.Read.FailClosed.{decrypt_with_keyring-IsOpened, IsOpened}
use mipsorcu.Crypto.Seal.{encrypt_secret, wrap_data_key}
use mipsorcu.Crypto.{EncryptedPayload, decrypt_secret, unwrap_data_key, KeyWrapContext}
use mipsorcu.Secrets.{as_rfc3339_utc}
use mipsorcu.Write.RoundTrip.{decrypt-prepare_new_with_keyring}
use mipsorcu.Write.Prepared.{row_of}
use mipsorcu.Read.{decrypt_current_secret_version_with_keyring}
use mipsorcu.Write.Keyed.{
  prepare_existing_secret_version_with_keyring, prepare_new_secret_version_with_keyring,
}
use mipsorcu.Tests.Toy.{toy-JsonLaws, toy-TimeLaws, toy-UuidLaws, toy-AeadLaws, toy}
use mipsorcu.Write.{
  ExistingSecretVersionInput, rewrap, PreparedSecretVersion, prepare_new_secret_version_parts,
  NewSecretVersionInput,
}
use mipsorcu.Authorization.{VerifiedJwtClaims}
use mipsorcu.Keyring.{active, get_key, from_key_entries, MasterKeyRing}
use mipsorcu.Prelude.{
  ◌⊎◌, arith, some, is_blank, err, replicate, ok, [], ℕ, Bytes, ◌∷◌, codes, ◌≡◌, List, refl,
}

abbrev old_key : Bytes
old_key = replicate 32 5

abbrev new_key : Bytes
new_key = replicate 32 6

abbrev ring : MasterKeyRing
ring = record { active_key_version = 2; keys = (1, old_key) ∷ (2, new_key) ∷ [] }

abbrev entries : List (ℕ × Bytes)
entries = (2, new_key) ∷ (1, old_key) ∷ []

built : from_key_entries 2 entries ≡ ok ring
unfolding from_key_entries
built = refl

abbrev claims : VerifiedJwtClaims
claims = record {
  subject_user_id = 9;
  issuer = codes "issuer";
  audience = codes "audience";
  expires_at = 100;
  mipsorcu_roles = [];
}

abbrev new : NewSecretVersionInput
new = record {
  owner_user_id = 9;
  classification = codes "high";
  created_by_device_id = codes "device";
  created_at = 3;
  key_version = 1;
  plaintext = 1 ∷ 2 ∷ 3 ∷ [];
}

-- the data key is the second draw, the nonce of its envelope the third
created :
    (p : PreparedSecretVersion) × (prepare_new_secret_version_parts toy new_key 2 new 0 ≡ (ok p, 5))
unfolding toy prepare_new_secret_version_parts as_rfc3339_utc
created = (_, refl)

decrypt-prepare_new_with_keyring_example :
    decrypt_current_secret_version_with_keyring toy ring (row_of claims created.0)
    ≡ ok (1 ∷ 2 ∷ 3 ∷ [])
unfolding prepare_new_secret_version_with_keyring is_blank
decrypt-prepare_new_with_keyring_example =
    decrypt-prepare_new_with_keyring toy toy-AeadLaws toy-UuidLaws toy-TimeLaws 2 entries ring built
      claims new 0 (prepare_new_secret_version_parts toy new_key 2 new) created.0 5 refl refl refl
      created.1

abbrev data_key : Bytes
data_key = replicate 32 8

abbrev context : KeyWrapContext
context = record { secret_id = 4; key_version = 1 }

abbrev envelope : Bytes
unfolding wrap_data_key
envelope = elim (wrap_data_key toy old_key context data_key 0).0 [ ok bytes ↦ bytes | err e ↦ [] ]

wrapped : wrap_data_key toy old_key context data_key 0 ≡ (ok envelope, 1)
unfolding toy wrap_data_key
wrapped = refl

unwrap_data_key-wrap_data_key_example : unwrap_data_key toy old_key context envelope ≡ ok data_key
unwrap_data_key-wrap_data_key_example =
    unwrap_data_key-wrap_data_key toy old_key context data_key 0 envelope 1 toy-AeadLaws wrapped

abbrev existing : ExistingSecretVersionInput
existing = record {
  current = record {
    secret_id = 4;
    current_version = 1;
    owner_user_id = 9;
    classification = codes "high";
    key_version = 1;
    encrypted_data_key = envelope;
  };
  created_by_device_id = codes "device";
  created_at = 3;
  plaintext = 4 ∷ 5 ∷ [];
}

rotated : (p : PreparedSecretVersion) × (rewrap toy existing 2 data_key (2, new_key) 0 ≡ (ok p, 3))
unfolding toy rewrap as_rfc3339_utc
rotated = (_, refl)

rotation :
    prepare_existing_secret_version_with_keyring toy ring existing
    ≡ some (rewrap toy existing 2 data_key (2, new_key))
unfolding toy prepare_existing_secret_version_with_keyring wrap_data_key unwrap_data_key
rotation = refl

decrypt-prepare_existing_with_keyring_example :
    Continues toy existing 2 rotated.0
    × (decrypt_current_secret_version_with_keyring toy ring (row_of claims rotated.0)
        ≡ ok (4 ∷ 5 ∷ []))
unfolding toy is_blank
decrypt-prepare_existing_with_keyring_example =
    decrypt-prepare_existing_with_keyring toy toy-AeadLaws toy-UuidLaws toy-TimeLaws 2 entries ring
      built claims existing 0 rotated.0 3 (rewrap toy existing 2 data_key (2, new_key)) refl refl
      refl rotation rotated.1

read_back :
    decrypt_current_secret_version_with_keyring toy ring (row_of claims rotated.0) ≡ ok (4 ∷ 5 ∷ [])
unfolding toy is_blank
read_back =
    (decrypt-prepare_existing_with_keyring toy toy-AeadLaws toy-UuidLaws toy-TimeLaws 2 entries ring
      built claims existing 0 rotated.0 3 (rewrap toy existing 2 data_key (2, new_key)) refl refl
      refl rotation rotated.1).1

decrypt_with_keyring-IsOpened_example : IsOpened toy ring (row_of claims rotated.0) (4 ∷ 5 ∷ [])
decrypt_with_keyring-IsOpened_example =
    decrypt_with_keyring-IsOpened toy toy-AeadLaws ring (row_of claims rotated.0) (4 ∷ 5 ∷ [])
      read_back

get_key-from_key_entries_example : get_key ring 1 ≡ ok old_key
get_key-from_key_entries_example =
    get_key-from_key_entries 2 ((2, new_key) ∷ []) [] 1 old_key ring built

active-from_key_entries_example :
    (k : Bytes) × (active ring ≡ some (2, k)) × (get_key ring 2 ≡ ok k)
active-from_key_entries_example = active-from_key_entries 2 entries ring built

abbrev aad : AadV1
aad = record {
  secret_id = 4;
  version = 2;
  owner_user_id = 9;
  classification = codes "high";
  created_at = 3;
}

aad-IsValid : IsValid toy aad
unfolding toy is_blank
aad-IsValid = record {
  secret_id_v4 = refl;
  version_pos = omega arith;
  version_u32 = omega arith;
  classification_not_blank = refl;
}

stored : (context : Value) × (to_stored_context toy aad ≡ ok context)
unfolding toy to_stored_context as_rfc3339_utc
stored = (_, refl)

from_stored_context-to_stored_context_example :
    from_stored_context toy stored.0 ≡ ok (in_utc toy aad)
from_stored_context-to_stored_context_example =
    from_stored_context-to_stored_context toy toy-UuidLaws toy-TimeLaws aad stored.0 aad-IsValid
      stored.1

encrypted : (p : EncryptedPayload) × (encrypt_secret toy data_key aad (4 ∷ 5 ∷ []) 0 ≡ (ok p, 1))
unfolding toy encrypt_secret as_rfc3339_utc
encrypted = (_, refl)

decrypt_secret-encrypt_secret_example :
    decrypt_secret toy data_key aad encrypted.0.nonce encrypted.0.ciphertext ≡ ok (4 ∷ 5 ∷ [])
decrypt_secret-encrypt_secret_example =
    decrypt_secret-encrypt_secret toy data_key aad (4 ∷ 5 ∷ []) 0 encrypted.0 1 toy-AeadLaws
      encrypted.1

unwrap_data_key-SameContext_example :
    (context ≡ context) ⊎ IsForged toy old_key context data_key 0 envelope 1 data_key
unwrap_data_key-SameContext_example =
    unwrap_data_key-SameContext toy old_key context data_key 0 envelope 1 context data_key
      toy-AeadLaws toy-JsonLaws toy-UuidLaws wrapped
      (unwrap_data_key-wrap_data_key toy old_key context data_key 0 envelope 1 toy-AeadLaws wrapped)
