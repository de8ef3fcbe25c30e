-- ===== src/Draws.antt =====
-- Actions that draw random bytes and may fail: `Result` with the count of the draws made so far.
use mipsorcu.Prelude.{ℕ, ◌≡◌, refl, ap, Result, ok, err, map_err, map_err-eq-ok}

abbrev pub Draw {ℓ κ} : Type ℓ → Type κ → Type (ℓ ⊔ κ)
Draw E A = ℕ → Result E A × ℕ

abbrev pub and_then {ℓ κ μ} :
    {E : Type ℓ} {A : Type κ} {B : Type μ} → Result E A → ℕ → (A → Draw E B) → Result E B × ℕ
and_then (ok a) k f = f a k
and_then (err e) k f = (err e, k)

infixl 5 ◌>>=◌ ◌>>◌
abbrev pub ◌>>=◌ {ℓ κ μ} :
    {E : Type ℓ} {A : Type κ} {B : Type μ} → Draw E A → (A → Draw E B) → Draw E B
◌>>=◌ m f k = let (r, k') = m k in and_then r k' f

abbrev pub ◌>>◌ {ℓ μ} : {E : Type ℓ} {B : Type μ} → Draw E (Unit {0}) → Draw E B → Draw E B
m >> n = m >>= λ _. n

-- a step that draws nothing
abbrev pub lift {ℓ κ} : {E : Type ℓ} {A : Type κ} → Result E A → Draw E A
lift r k = (r, k)

-- `?` where the error type changes
abbrev pub from {ℓ κ μ} : {E : Type ℓ} {F : Type κ} {A : Type μ} → (E → F) → Draw E A → Draw F A
from f m k = let (r, k') = m k in (map_err f r, k')

module _ {ℓ κ} {E : Type ℓ} {A : Type κ} where
  and_then-eq-ok {μ} :
      {B : Type μ} (r : Result E A) (k : ℕ) (f : A → Draw E B) {b : B} {k' : ℕ}
      → and_then r k f ≡ (ok b, k')
      → (a : A) × (r ≡ ok a) × (f a k ≡ (ok b, k'))
  and_then-eq-ok (ok a) k f h = (a, refl, h)
  and_then-eq-ok (err e) k f h = cc

  -- A chain that succeeds: its first action did, and the rest did from there.
  pub >>=-eq-ok {μ} :
      {B : Type μ} (m : Draw E A) (f : A → Draw E B) (k : ℕ) {b : B} {k' : ℕ}
      → (m >>= f) k ≡ (ok b, k')
      → (a : A) × (k1 : ℕ) × (m k ≡ (ok a, k1)) × (f a k1 ≡ (ok b, k'))
  >>=-eq-ok m f k h =
      let (r, k1) = m k in
      let (a, p, q) = and_then-eq-ok r k1 f h in (a, k1, ap (λ x. (x, k1)) p, q)

  pub from-eq-ok {μ} :
      {F : Type μ} (f : E → F) (m : Draw E A) (k : ℕ) {a : A} {k' : ℕ}
      → from f m k ≡ (ok a, k')
      → m k ≡ (ok a, k')
  from-eq-ok f m k {a} {k'} h =
      let (r, k1) = m k in
      let p : r ≡ ok a = map_err-eq-ok f r (ap (λ x. x.0) h) in
      let q : k1 ≡ k' = ap (λ x. x.1) h in rw (p, q) refl

  -- the same for a step that draws nothing
  pub lift-eq-ok {μ} :
      {B : Type μ} (r : Result E A) (f : A → Draw E B) (k : ℕ) {b : B} {k' : ℕ}
      → (lift r >>= f) k ≡ (ok b, k')
      → (a : A) × (r ≡ ok a) × (f a k ≡ (ok b, k'))
  lift-eq-ok r f k h = and_then-eq-ok r k f h
