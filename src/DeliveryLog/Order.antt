-- ===== src/DeliveryLog/Order.antt =====
-- The order of the keys of a map: an insertion keeps it.
use mipsorcu.Prelude.{
  text_eq_refl, ◌++◌, refl, false, true, ◌≡◌, bytes_eq, Text, text_lt, text_eq, [], ◌∷◌, arith,
  text_eq_iff,
}
use mipsorcu.DeliveryLog.{remove, text_eq, Text, text_lt, BTreeMap, insert}

text_lt_irrefl : (s : Text) → text_lt s s ≡ false
unfolding text_lt
text_lt_irrefl [] = ground arith
text_lt_irrefl (c ∷ s) = ground (arith, text_lt_irrefl s)

pub text_lt_trans : (r s t : Text) → text_lt r s ≡ true → text_lt s t ≡ true → text_lt r t ≡ true
unfolding text_lt
text_lt_trans r s [] p q = ground arith
text_lt_trans r [] (c ∷ t) p q = ground arith
text_lt_trans [] (b ∷ s) (c ∷ t) p q = ground arith
text_lt_trans (a ∷ r) (b ∷ s) (c ∷ t) p q = ground (arith, text_lt_trans r s t)

pub text_lt_total : (s t : Text) → text_lt s t ≡ false → text_eq s t ≡ false → text_lt t s ≡ true
unfolding text_lt text_eq bytes_eq
text_lt_total [] [] p q = ground arith
text_lt_total [] (b ∷ t) p q = ground arith
text_lt_total (a ∷ s) [] p q = ground arith
text_lt_total (a ∷ s) (b ∷ t) p q = ground (arith, text_lt_total s t)

module _ {ℓ} {V : Type ℓ} where
  -- every key of the map is above the text
  unfoldable pub Above : Text → BTreeMap V → Type 0
  Above k [] = Unit
  Above k ((j, v) ∷ m) = (text_lt k j ≡ true) × Above k m

  unfoldable pub Sorted : BTreeMap V → Type 0
  Sorted [] = Unit
  Sorted ((k, v) ∷ m) = Above k m × Sorted m

  pub Above-trans : (j k : Text) (m : BTreeMap V) → text_lt j k ≡ true → Above k m → Above j m
  unfolding Above
  Above-trans j k [] p a = tt
  Above-trans j k ((i, v) ∷ m) p (q, a) = (text_lt_trans j k i p q, Above-trans j k m p a)

  pub insert-Above :
      (j k : Text) (v : V) (m : BTreeMap V)
      → text_lt j k ≡ true
      → Above j m
      → Above j (insert k v m)
  unfolding insert Above
  insert-Above j k v [] p a = (p, tt)
  insert-Above j k v ((i, w) ∷ m) p (q, a) = ground (arith, insert-Above j k v m p a)

  pub insert-Sorted : (k : Text) (v : V) (m : BTreeMap V) → Sorted m → Sorted (insert k v m)
  unfolding insert Sorted Above
  insert-Sorted k v [] s = (tt, tt)
  insert-Sorted k v ((i, w) ∷ m) (a, s) = ground (
    arith,
    insert-Sorted k v m s,
    Above-trans k i m,
    text_lt_total k i,
    text_eq_iff k i,
    insert-Above i k v m,
  )

  pub remove-Above : (j k : Text) (m : BTreeMap V) → Above j m → Above j (remove k m)
  unfolding remove Above
  remove-Above j k [] a = tt
  remove-Above j k ((i, w) ∷ m) (q, a) = ground (arith, remove-Above j k m a)

  -- a key that is below all others goes first
  pub insert-Above-first :
      (k : Text) (v : V) (m : BTreeMap V) → Above k m → insert k v m ≡ (k, v) ∷ m
  unfolding insert Above
  insert-Above-first k v [] a = refl
  insert-Above-first k v ((j, w) ∷ m) (q, a) = ground arith

  pub remove-Above-nothing : (k : Text) (m : BTreeMap V) → Above k m → remove k m ≡ m
  unfolding remove Above
  remove-Above-nothing k [] a = refl
  remove-Above-nothing k ((j, w) ∷ m) (q, a) =
      ground (arith, remove-Above-nothing k m a, text_eq_iff k j, text_lt_irrefl k)

  pub remove-Sorted : (k : Text) (m : BTreeMap V) → Sorted m → Sorted (remove k m)
  unfolding remove Sorted
  remove-Sorted k [] s = tt
  remove-Sorted k ((j, w) ∷ m) (a, s) = ground (arith, remove-Sorted k m s, remove-Above j k m a)

  Above-here :
      (j k : Text) (v : V) (kept rest : BTreeMap V)
      → Above j (kept ++ (k, v) ∷ rest)
      → text_lt j k ≡ true
  unfolding Above
  Above-here j k v [] rest a = a.0
  Above-here j k v ((i, w) ∷ kept) rest a = Above-here j k v kept rest a.1

  -- the removal of a key that stands in the middle of a map
  pub remove-middle :
      (k : Text) (v : V) (kept rest : BTreeMap V)
      → Sorted (kept ++ (k, v) ∷ rest)
      → remove k (kept ++ (k, v) ∷ rest) ≡ kept ++ rest
  unfolding remove Sorted
  remove-middle k v [] rest s = ground (arith, text_eq_refl k)
  remove-middle k v ((j, w) ∷ kept) rest (a, s) = ground (
    arith,
    remove-middle k v kept rest s,
    Above-here j k v kept rest a,
    text_eq_iff k j,
    text_lt_irrefl k,
  )
