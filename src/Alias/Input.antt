-- ===== src/Alias/Input.antt =====
-- src/alias/input.rs and src/alias/error.rs, and `SecretRef` of src/types/ids.rs.
pub mod Normal
use mipsorcu.Crates.{Crates, Uuid}
use mipsorcu.Errors.{InputError, invalid_secret_alias}
use mipsorcu.Prelude.{
  ℕ, ◌+◌, Bool, ◌||◌, ◌&&◌, not, Bytes, Text, trim, as_bytes, len, is_empty, Option, none, some,
  Result, ok, err, reject, map_err, ◌>>=◌, ◌>>◌, [], ◌∷◌, leb, ltb, ◌==◌, if◌then◌else◌,
}
use mipsorcu.Secrets.{parse_secret_id}

abbrev pub alias_max_length : ℕ
alias_max_length = 128

pub data AliasInputError : Type 0 where
  empty : AliasInputError
  too_long : ℕ → ℕ → AliasInputError
  disallowed_character : ℕ → AliasInputError

abbrev pub is_allowed_byte : ℕ → Bool
is_allowed_byte byte =
    (leb b'A' byte && leb byte b'Z')
    || (leb b'a' byte && leb byte b'z')
    || (leb b'0' byte && leb byte b'9')
    || byte == b'-'
    || byte == b'_'

-- the loop over `bytes().enumerate()`, from a position on
unfoldable pub check_bytes : ℕ → Bytes → Result AliasInputError (Unit {0})
check_bytes position [] = ok tt
check_bytes position (byte ∷ bytes) =
    let rest = check_bytes (position + 1) bytes in
    if not (is_allowed_byte byte) then err (disallowed_character position) else rest

-- `NormalizedAlias::parse`: an alias is its text
unfoldable pub parse_alias : Text → Result AliasInputError Text
unfolding trim len as_bytes check_bytes
parse_alias value = do
  reject (is_empty (trim value)) empty
  reject (ltb alias_max_length (len (trim value))) (too_long (len (trim value)) alias_max_length)
  check_bytes 0 (as_bytes (trim value))
  ok (trim value)

pub data SecretRef : Type 0 where
  id : Uuid → SecretRef
  alias : Text → SecretRef

-- `SecretRef::parse`
unfoldable pub parse_secret_ref : Crates → Text → Result InputError SecretRef
unfolding trim parse_secret_id parse_alias
parse_secret_ref c value = elim (parse_secret_id c (trim value)) [
  | ok secret_id ↦ ok (id secret_id)
  | err e ↦
      map_err (λ e. invalid_secret_alias) (parse_alias (trim value)) >>= λ name. ok (alias name)
]
