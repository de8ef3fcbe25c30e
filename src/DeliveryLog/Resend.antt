-- ===== src/DeliveryLog/Resend.antt =====
-- What a resend leaves: the pending values that were not accepted.
use mathlib.Core.List.{append_assoc}
use mipsorcu.DeliveryLog.{BTreeMap, values, resend_all}
use mipsorcu.Prelude.{
  ℕ, ◌+◌, Bool, true, false, Text, [], ◌∷◌, ◌++◌, ◌≡◌, refl, ap, suc, subst, sym, arith, length,
  Bool-cases, inl, inr, if◌then◌else◌,
}

pub length-values {ℓ} : {V : Type ℓ} (m : BTreeMap V) → length (values m) ≡ length m
length-values [] = refl
length-values ((k, e) ∷ m) = ap suc (length-values m)

-- the values that are not accepted, the first of the map being the i-th of the batch
abbrev pub unsent {ℓ} : {V : Type ℓ} → (ℕ → V → Bool) → ℕ → BTreeMap V → BTreeMap V
unsent accepts i [] = []
unsent accepts i ((k, e) ∷ rest) =
    let later = unsent accepts (i + 1) rest in if accepts i e then later else (k, e) ∷ later

module _ {ℓ κ μ} {V : Type ℓ} {B : Type κ} (turn : ℕ → V → B → Bool × B) (accepts : ℕ → V → Bool)
    (Stands : B → BTreeMap V → Type μ) where
  -- one turn removes an accepted value and does nothing on another
  pub record IsTurn : Type (ℓ ⊔ κ ⊔ μ) where
    pub accepted :
        (i : ℕ) (k : Text) (e : V) (kept rest : BTreeMap V) (log : B)
        → accepts i e ≡ true
        → Stands log (kept ++ (k, e) ∷ rest)
        → ((turn i e log).0 ≡ true) × Stands (turn i e log).1 (kept ++ rest)
    pub refused : (i : ℕ) (e : V) (log : B) → accepts i e ≡ false → turn i e log ≡ (false, log)

  -- what the loop leaves, with `kept` the values that were not accepted before
  pub record Resent (i : ℕ) (kept rest : BTreeMap V) (sent failed : ℕ) (log : B)
      : Type (κ ⊔ μ) where
    pub left :
        Stands (resend_all turn i (values rest) sent failed log).1 (kept ++ unsent accepts i rest)
    pub counted_failed :
        (resend_all turn i (values rest) sent failed log).0.1
        ≡ failed + length (unsent accepts i rest)
    pub counted_sent :
        (resend_all turn i (values rest) sent failed log).0.0 + length (unsent accepts i rest)
        ≡ sent + length rest

  pub resend_all-Resent :
      IsTurn
      → (i : ℕ) (kept rest : BTreeMap V) (sent failed : ℕ) (log : B) → Stands log (kept ++ rest)
      → Resent i kept rest sent failed log
  unfolding resend_all
  resend_all-Resent t i kept [] sent failed log h = record {
    left = h;
    counted_failed = omega arith;
    counted_sent = refl;
  }
  resend_all-Resent t i kept ((k, e) ∷ rest) sent failed log h = elim (Bool-cases (accepts i e)) [
    | inl a ↦
        let (q, r) = t.accepted i k e kept rest log a h in
        let ih = resend_all-Resent t (i + 1) kept rest (sent + 1) failed (turn i e log).1 r in
        record {
          left = rw (a, resend_all, q) ih.left;
          counted_failed = rw (a, resend_all, q) ih.counted_failed;
          counted_sent = rw (a, resend_all, q) (omega (arith, ih.counted_sent));
        }
    | inr a ↦
        let h1 = subst (λ m. Stands log m) (sym (append_assoc kept ((k, e) ∷ []) rest)) h in
        let ih = resend_all-Resent t (i + 1) (kept ++ (k, e) ∷ []) rest sent (failed + 1) log h1 in
        record {
          left =
              rw (a, resend_all, t.refused i e log a)
                (subst
                  (λ m. Stands (resend_all turn (i + 1) (values rest) sent (failed + 1) log).1 m)
                  (append_assoc kept ((k, e) ∷ []) (unsent accepts (i + 1) rest)) ih.left);
          counted_failed =
              rw (a, resend_all, t.refused i e log a) (omega (arith, ih.counted_failed));
          counted_sent = rw (a, resend_all, t.refused i e log a) (omega (arith, ih.counted_sent));
        }
  ]
