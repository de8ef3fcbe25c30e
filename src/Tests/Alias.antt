-- ===== src/Tests/Alias.antt =====
-- Aliases with concrete functions in the place of the crates.

use mipsorcu.Alias.Crypto.{decrypt_alias_row}
use mipsorcu.Alias.Input.{parse_alias}
use mipsorcu.Alias.Input.Normal.{IsAlias, parse_alias_iff, parse_alias_idem}
use mipsorcu.Alias.Prepare.{prepare_alias_create, PreparedAliasCreate}
use mipsorcu.Alias.Prepare.RoundTrip.{decrypt-prepare_alias_create}
use mipsorcu.Prelude.{◌≡◌, ◌↔◌, refl, Bytes, Text, codes, replicate, ok, trim, arith}
use mipsorcu.Tests.Toy.{toy, toy-UuidLaws, toy-AeadLaws, toy-Utf8Laws, toy-JsonTextLaws}

abbrev name : Text
name = codes "db_1"

parsed_name : parse_alias (codes " db_1 ") ≡ ok name
unfolding parse_alias
parsed_name = refl

parse_alias_iff_example :
    (parse_alias (codes " db_1 ") ≡ ok name) ↔ ((trim (codes " db_1 ") ≡ name) × IsAlias name)
parse_alias_iff_example = parse_alias_iff (codes " db_1 ") name

parse_alias_idem_example : parse_alias name ≡ ok name
parse_alias_idem_example = parse_alias_idem (codes " db_1 ") name parsed_name

abbrev key : Bytes
key = replicate 32 9

created :
    (p : PreparedAliasCreate) × (prepare_alias_create toy key 1 key 1 7 9 name 3 0 ≡ (ok p, 2))
unfolding prepare_alias_create toy
created = (_, refl)

decrypt-prepare_alias_create_example :
    (created.0.secret_id ≡ 7)
    × (created.0.owner_user_id ≡ 9)
    × (created.0.alias_key_version ≡ 1)
    × (decrypt_alias_row toy key created.0.secret_alias_id created.0.secret_id
          created.0.owner_user_id created.0.alias_key_version created.0.ciphertext created.0.nonce
          created.0.aad_context
        ≡ ok (record { secret_alias_id = created.0.secret_alias_id; secret_id = 7; alias = name }))
unfolding toy
decrypt-prepare_alias_create_example =
    decrypt-prepare_alias_create toy toy-UuidLaws toy-AeadLaws toy-Utf8Laws toy-JsonTextLaws key 1
      key 1 7 9 (codes " db_1 ") name 3 0 created.0 2 refl (omega arith) (omega arith) parsed_name
      created.1
