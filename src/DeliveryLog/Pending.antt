-- ===== src/DeliveryLog/Pending.antt =====
-- What a log holds as pending: a map by id to which a `Pending` line adds its value and from which a
-- `Sent` line removes its id.
use mipsorcu.DeliveryLog.{BTreeMap, insert, remove, lines, newline, replay, collect_pending, values}
use mipsorcu.DeliveryLog.Order.{
  Above, Sorted, insert-Sorted, insert-Above-first, remove-Above-nothing, Above-trans,
}
use mipsorcu.DeliveryLog.Replay.{IsLine, Replays, Replays-nothing, Replays-append, Replays-lines}
use mipsorcu.Prelude.{
  sym, subst, inr, inl, Bool-cases, Text, Bool, true, false, Result, ok, ◌>>=◌, [], ◌∷◌, ◌++◌, ◌≡◌,
  refl, text_eq, text_lt, text_eq_iff,
}

module _ {ℓ κ μ} {E : Type ℓ} {S : Type κ} {V : Type μ} (is_pending : S → Bool)
    (decode : S → Result E V) where
  -- the pending values among the states
  pub data Shows : BTreeMap S → BTreeMap V → Type (ℓ ⊔ κ ⊔ μ) where
    none_left : Shows [] []
    pending :
        {k : Text} {s : S} {v : V} {m : BTreeMap S} {n : BTreeMap V}
        → is_pending s ≡ true
        → decode s ≡ ok v
        → Shows m n
        → Shows ((k, s) ∷ m) ((k, v) ∷ n)
    sent :
        {k : Text} {s : S} {m : BTreeMap S} {n : BTreeMap V}
        → is_pending s ≡ false
        → Shows m n
        → Shows ((k, s) ∷ m) n

  Shows-Above : (k : Text) {m : BTreeMap S} {n : BTreeMap V} → Shows m n → Above k m → Above k n
  unfolding Above
  Shows-Above k none_left a = tt
  Shows-Above k (pending p q h) (b, a) = (b, Shows-Above k h a)
  Shows-Above k (sent p h) (b, a) = Shows-Above k h a

  Shows-collect :
      {m : BTreeMap S} {n : BTreeMap V}
      → Shows m n
      → collect_pending is_pending decode m ≡ ok (values n)
  unfolding collect_pending
  Shows-collect none_left = refl
  Shows-collect (pending p q h) = rw (p, q, Shows-collect h) refl
  Shows-collect (sent p h) = rw p (Shows-collect h)

  -- the keys of the pending values are above what all keys of the states are above
  Shows-below :
      (k j : Text) {m : BTreeMap S} {n : BTreeMap V}
      → text_lt k j ≡ true
      → Above j m
      → Shows m n
      → Above k n
  Shows-below k j {m} l a h = Shows-Above k h (Above-trans k j m l a)

  Shows-same :
      (k j : Text) {m : BTreeMap S} {n : BTreeMap V}
      → text_eq k j ≡ true
      → Above j m
      → Shows m n
      → Above k n
  Shows-same k j {m} e a h =
      Shows-Above k h (subst (λ x. Above {V = S} x m) (sym ((text_eq_iff k j).0 e)) a)

  Shows-pending :
      (k : Text) (s : S) (v : V) {m : BTreeMap S} {n : BTreeMap V}
      → is_pending s ≡ true
      → decode s ≡ ok v
      → Sorted m
      → Shows m n
      → Shows (insert k s m) (insert k v n)
  unfolding insert Sorted
  Shows-pending k s v p q o none_left = pending p q none_left
  Shows-pending k s v p q o (pending {k = j} pj qj h) = elim (Bool-cases (text_lt k j)) [
    | inl l ↦ rw l (pending p q (pending pj qj h))
    | inr l ↦ elim (Bool-cases (text_eq k j)) [
      | inl e ↦ rw (l, e) (pending p q h)
      | inr e ↦ rw (l, e) (pending pj qj (Shows-pending k s v p q o.1 h))
    ]
  ]
  Shows-pending k s v p q o (sent {k = j} {n = n} pj h) = elim (Bool-cases (text_lt k j)) [
    | inl l ↦ rw (l, insert-Above-first k v n (Shows-below k j l o.0 h)) (pending p q (sent pj h))
    | inr l ↦ elim (Bool-cases (text_eq k j)) [
      | inl e ↦ rw (l, e, insert-Above-first k v n (Shows-same k j e o.0 h)) (pending p q h)
      | inr e ↦ rw (l, e) (sent pj (Shows-pending k s v p q o.1 h))
    ]
  ]

  Shows-sent :
      (k : Text) (s : S) {m : BTreeMap S} {n : BTreeMap V}
      → is_pending s ≡ false
      → Sorted m
      → Shows m n
      → Shows (insert k s m) (remove k n)
  unfolding insert remove Sorted Above
  Shows-sent k s p o none_left = sent p none_left
  Shows-sent k s p o (pending {k = j} {v = w} {n = n} pj qj h) = elim (Bool-cases (text_lt k j)) [
    | inl l ↦
        rw (l, remove-Above-nothing k ((j, w) ∷ n) (l, Shows-below k j l o.0 h))
          (sent p (pending pj qj h))
    | inr l ↦ elim (Bool-cases (text_eq k j)) [
      | inl e ↦ rw (l, e) (sent p h)
      | inr e ↦ rw (l, e) (pending pj qj (Shows-sent k s p o.1 h))
    ]
  ]
  Shows-sent k s p o (sent {k = j} {n = n} pj h) = elim (Bool-cases (text_lt k j)) [
    | inl l ↦ rw (l, remove-Above-nothing k n (Shows-below k j l o.0 h)) (sent p (sent pj h))
    | inr l ↦ elim (Bool-cases (text_eq k j)) [
      | inl e ↦ rw (l, e, remove-Above-nothing k n (Shows-same k j e o.0 h)) (sent p h)
      | inr e ↦ rw (l, e) (sent pj (Shows-sent k s p o.1 h))
    ]
  ]

  module _ (parse : Text → Result E S) (id : S → Text) where
    -- A file's text is a log that leaves the given map of pending values.
    pub record Holds (content : Text) (pending_values : BTreeMap V) : Type (ℓ ⊔ κ ⊔ μ) where
      pub states : BTreeMap S
      pub replays : Replays parse id content states
      pub sorted : Sorted states
      pub shows : Shows states pending_values

    pub Holds-nothing : Holds [] []
    unfolding Sorted
    Holds-nothing = record {
      states = [];
      replays = Replays-nothing parse id;
      sorted = tt;
      shows = none_left;
    }

    pub Holds-pending :
        (content line : Text) (n : BTreeMap V) (read : S) (v : V)
        → IsLine line
        → parse line ≡ ok read
        → is_pending read ≡ true
        → decode read ≡ ok v
        → Holds content n
        → Holds (content ++ (line ++ newline ∷ [])) (insert (id read) v n)
    Holds-pending content line n read v l p i d h = record {
      states = insert (id read) read h.states;
      replays = Replays-append parse id content h.states line read l p h.replays;
      sorted = insert-Sorted (id read) read h.states h.sorted;
      shows = Shows-pending (id read) read v i d h.sorted h.shows;
    }

    pub Holds-sent :
        (content line : Text) (n : BTreeMap V) (read : S)
        → IsLine line
        → parse line ≡ ok read
        → is_pending read ≡ false
        → Holds content n
        → Holds (content ++ (line ++ newline ∷ [])) (remove (id read) n)
    Holds-sent content line n read l p i h = record {
      states = insert (id read) read h.states;
      replays = Replays-append parse id content h.states line read l p h.replays;
      sorted = insert-Sorted (id read) read h.states h.sorted;
      shows = Shows-sent (id read) read i h.sorted h.shows;
    }

    pub Holds-collected :
        (content : Text) (n : BTreeMap V)
        → Holds content n
        → (replay parse id [] (lines content) >>= λ states.
            collect_pending is_pending decode states)
          ≡ ok (values n)
    Holds-collected content n h =
        rw (Replays-lines parse id content h.states h.replays) (Shows-collect h.shows)
