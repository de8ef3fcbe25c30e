-- ===== src/Alias/Input/Normal.antt =====
-- Which texts are aliases.
use mathlib.Core.List.{reverse, reverse-reverse, reverse_aux}
use mipsorcu.Alias.Input.{
  empty, too_long, is_allowed_byte, check_bytes, parse_alias, alias_max_length, AliasInputError,
}
use mipsorcu.Prelude.{
  ◌%◌, Bool-cases, inl, inr, reject, ◌/◌, >>=-eq-ok, ℕ, ◌+◌, ◌≤◌, Bool, true, false, Bytes, Text,
  trim, trim_start, is_whitespace, as_bytes, len, length, all, ltb, is_empty, ok, [], ◌∷◌, ◌++◌,
  ◌≡◌, ◌↔◌, refl, arith,
}

-- A text of the allowed characters, and of at least one and at most `alias_max_length` of them.
pub record IsAlias (s : Text) : Type 0 where
  pub filled : 1 ≤ length s
  pub bounded : length s ≤ alias_max_length
  pub allowed : all is_allowed_byte s ≡ true

pub as_bytes-ascii : (s : Text) → all (λ x. ltb x 0x80) s ≡ true → as_bytes s ≡ s
unfolding as_bytes
as_bytes-ascii [] p = refl
as_bytes-ascii (c ∷ s) p = ground (arith, as_bytes-ascii s)

check_bytes-allowed : (n : ℕ) (b : Bytes) → check_bytes n b ≡ ok tt → all is_allowed_byte b ≡ true
unfolding check_bytes
check_bytes-allowed n [] h = refl
check_bytes-allowed n (x ∷ b) h = ground (arith, check_bytes-allowed (n + 1) b)

allowed-check_bytes : (n : ℕ) (b : Bytes) → all is_allowed_byte b ≡ true → check_bytes n b ≡ ok tt
unfolding check_bytes
allowed-check_bytes n [] h = refl
allowed-check_bytes n (x ∷ b) h = ground (arith, allowed-check_bytes (n + 1) b)

all-append-left : (s t : Bytes) → all is_allowed_byte (s ++ t) ≡ true → all is_allowed_byte t ≡ true
all-append-left [] t h = h
all-append-left (x ∷ s) t h = ground (arith, all-append-left s t)

-- bytes above ASCII are not allowed
bad_first : (b : ℕ) (rest : Bytes) → 0x80 ≤ b → ¬ (all is_allowed_byte (b ∷ rest) ≡ true)
bad_first b rest p h = ground (arith, h)

allowed-as_bytes :
    (s : Text) → all is_allowed_byte (as_bytes s) ≡ true → all is_allowed_byte s ≡ true
unfolding as_bytes
allowed-as_bytes [] h = refl
allowed-as_bytes (c ∷ s) h = elim (Bool-cases (ltb c 0x80)) [
  | inl p ↦ let first = rw p at h in ground (arith, first, allowed-as_bytes s)
  | inr p ↦ elim (Bool-cases (ltb c 0x800)) [
    | inl q ↦
        absurd
          (bad_first (0xC0 + c / 64) ((0x80 + c % 64) ∷ as_bytes s) (omega arith) (rw (p, q) at h))
    | inr q ↦ elim (Bool-cases (ltb c 0x10000)) [
      | inl r ↦ absurd (
          bad_first (0xE0 + c / 4096) ((0x80 + c / 64 % 64) ∷ (0x80 + c % 64) ∷ as_bytes s)
            (omega arith) (rw (p, q, r) at h))
      | inr r ↦ absurd (
          bad_first (0xF0 + c / 262144)
            ((0x80 + c / 4096 % 64) ∷ (0x80 + c / 64 % 64) ∷ (0x80 + c % 64) ∷ as_bytes s)
            (omega arith) (rw (p, q, r) at h))
    ]
  ]
]

pub allowed-ascii : (s : Text) → all is_allowed_byte s ≡ true → all (λ x. ltb x 0x80) s ≡ true
allowed-ascii [] h = refl
allowed-ascii (c ∷ s) h = ground (arith, allowed-ascii s)

allowed_not_white : (c : ℕ) → is_allowed_byte c ≡ true → is_whitespace c ≡ false
unfolding is_whitespace
allowed_not_white c h = ground (arith, h)

trim_start-allowed : (s : Text) → all is_allowed_byte s ≡ true → trim_start s ≡ s
unfolding trim_start
trim_start-allowed [] h = refl
trim_start-allowed (c ∷ s) h = ground (arith, allowed_not_white c)

all-reverse_aux :
    (s t : Text)
    → all is_allowed_byte s ≡ true
    → all is_allowed_byte t ≡ true
    → all is_allowed_byte (reverse_aux s t) ≡ true
all-reverse_aux [] t h k = k
all-reverse_aux (c ∷ s) t h k = all-reverse_aux s (c ∷ t) (ground (arith, h)) (ground (arith, h, k))

trim-allowed : (s : Text) → all is_allowed_byte s ≡ true → trim s ≡ s
unfolding trim
trim-allowed s h =
    rw (trim_start-allowed s h, trim_start-allowed (reverse s) (all-reverse_aux s [] h refl))
      (reverse-reverse s)

is_empty-length : (s : Text) → is_empty s ≡ false → 1 ≤ length s
is_empty-length [] p = cc
is_empty-length (c ∷ s) p = omega arith

at_most : (n m : ℕ) → ltb m n ≡ false → n ≤ m
at_most n m p = ground (arith, p)

reject-passed : (b : Bool) (e : AliasInputError) → reject b e ≡ ok tt → b ≡ false
reject-passed false e h = refl
reject-passed true e h = cc

parse_trimmed : (t s : Text) → trim t ≡ s → parse_alias t ≡ ok s → IsAlias s
unfolding parse_alias len
parse_trimmed t s q h =
    let (u, a, h1) = >>=-eq-ok (reject (is_empty (trim t)) empty) _ h in
    let (v, b, h2) =
      >>=-eq-ok
        (reject (ltb alias_max_length (length (as_bytes (trim t))))
          (too_long (length (as_bytes (trim t))) alias_max_length))
        _ h1 in
    let (w, d, h3) = >>=-eq-ok (check_bytes 0 (as_bytes (trim t))) _ h2 in
    let allowed = allowed-as_bytes s (rw q at (check_bytes-allowed 0 (as_bytes (trim t)) d)) in
    let same = as_bytes-ascii s (allowed-ascii s allowed) in
    record {
      filled = is_empty-length s (ground (arith, a, q));
      bounded = at_most (length s) alias_max_length (rw (q, same) at (reject-passed _ _ b));
      allowed = allowed;
    }

not_above : (n m : ℕ) → n ≤ m → ltb m n ≡ false
not_above n m p = ground arith

IsAlias-parse : (t s : Text) → trim t ≡ s → IsAlias s → parse_alias t ≡ ok s
unfolding parse_alias len
IsAlias-parse t [] q a = absurd (omega (arith, a.filled))
IsAlias-parse t (c ∷ s) q a =
    let same = as_bytes-ascii (c ∷ s) (allowed-ascii (c ∷ s) a.allowed) in
    rw
      (
        q,
        same,
        not_above (length (c ∷ s)) alias_max_length a.bounded,
        allowed-check_bytes 0 (c ∷ s) a.allowed,
      )
      refl

parse_alias-trim : (value s : Text) → parse_alias value ≡ ok s → trim value ≡ s
unfolding parse_alias
parse_alias-trim value s h = ground (arith, h)

-- `NormalizedAlias::parse` returns an alias exactly when the trimmed text has 1 to 128 characters that
-- `is_allowed_byte` all takes, and then it returns the trimmed text: no character beyond ASCII passes.
pub parse_alias_iff : (value s : Text) → (parse_alias value ≡ ok s) ↔ ((trim value ≡ s) × IsAlias s)
parse_alias_iff value s = (
  λ h. (parse_alias-trim value s h, parse_trimmed value s (parse_alias-trim value s h) h),
  λ p. IsAlias-parse value s p.0 p.1,
)

-- An alias is its own normal form: what was parsed is parsed again as it is.
pub parse_alias_idem : (value s : Text) → parse_alias value ≡ ok s → parse_alias s ≡ ok s
parse_alias_idem value s h =
    let (p, a) = (parse_alias_iff value s).0 h in IsAlias-parse s s (trim-allowed s a.allowed) a
