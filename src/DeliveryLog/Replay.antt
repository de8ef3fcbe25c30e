-- ===== src/DeliveryLog/Replay.antt =====
-- What a reader of a log finds: the lines that were appended, replayed in their order.
use mipsorcu.DeliveryLog.{BTreeMap, insert, lines, newline, replay, push, at_newline}
use mipsorcu.Prelude.{
  inr, inl, ◌&&◌, Result-cases, ◌∙◌, is_blank, all, Text, ◌==◌, not, Result, ok, List, [], ◌∷◌,
  ◌++◌, ◌≡◌, refl, true, false, arith, sym, ap,
}
use mathlib.Core.List.{append_assoc}

-- JSON text has no control character; the text of an object is not blank.
pub record IsLine (line : Text) : Type 0 where
  pub one_line : all (λ c. not (c == 10) && not (c == 13)) line ≡ true
  pub filled : is_blank line ≡ false

-- the text of a file with the given lines
abbrev log : List Text → Text
log [] = []
log (line ∷ rest) = line ++ newline ∷ log rest

lines-line :
    (line s : Text)
    → all (λ c. not (c == 10) && not (c == 13)) line ≡ true
    → lines (line ++ newline ∷ s) ≡ line ∷ lines s
unfolding lines push at_newline
lines-line [] s p = refl
lines-line (c ∷ line) s p = ground (arith, lines-line line s)

log-append :
    (ls : List Text) (line : Text) → log (ls ++ line ∷ []) ≡ log ls ++ (line ++ newline ∷ [])
log-append [] line = refl
log-append (l ∷ ls) line =
    rw (log-append ls line) (sym (append_assoc l (newline ∷ log ls) (line ++ newline ∷ [])))

pub AllLines : List Text → Type 0
AllLines [] = Unit
AllLines (line ∷ rest) = IsLine line × AllLines rest

AllLines-append :
    (ls : List Text) (line : Text) → AllLines ls → IsLine line → AllLines (ls ++ line ∷ [])
unfolding AllLines
AllLines-append [] line a l = (l, tt)
AllLines-append (x ∷ ls) line (p, a) l = (p, AllLines-append ls line a l)

lines-log : (ls : List Text) → AllLines ls → lines (log ls) ≡ ls
unfolding AllLines lines
lines-log [] a = refl
lines-log (line ∷ ls) (p, a) = lines-line line (log ls) p.one_line ∙ ap (◌∷◌ line) (lines-log ls a)

module _ {ℓ κ} {E : Type ℓ} {S : Type κ} (parse : Text → Result E S) (id : S → Text) where
  -- The states that a log leaves, line by line.
  pub record Replays (content : Text) (states : BTreeMap S) : Type (ℓ ⊔ κ) where
    pub written : List Text
    pub is_log : content ≡ log written
    pub all_lines : AllLines written
    pub replayed : replay parse id [] written ≡ ok states

  replay-append :
      (ls : List Text) (line : Text) (read : S) (m states : BTreeMap S)
      → is_blank line ≡ false
      → parse line ≡ ok read
      → replay parse id m ls ≡ ok states
      → replay parse id m (ls ++ line ∷ []) ≡ ok (insert (id read) read states)
  unfolding replay
  replay-append [] line read m states b p r = ground arith
  replay-append (l ∷ ls) line read m states b p r = elim (Result-cases (parse l)) [
    | inl (first, q) ↦ ground (
      arith,
      replay-append ls line read m states b p,
      replay-append ls line read (insert (id first) first m) states b p,
    )
    | inr (e, q) ↦ ground (arith, replay-append ls line read m states b p)
  ]

  pub Replays-nothing : Replays [] []
  unfolding replay AllLines
  Replays-nothing = record { written = []; is_log = refl; all_lines = tt; replayed = refl }

  pub Replays-append :
      (content : Text) (states : BTreeMap S) (line : Text) (read : S)
      → IsLine line
      → parse line ≡ ok read
      → Replays content states
      → Replays (content ++ (line ++ newline ∷ [])) (insert (id read) read states)
  Replays-append content states line read l p h = record {
    written = h.written ++ line ∷ [];
    is_log = ap (λ s. s ++ (line ++ newline ∷ [])) h.is_log ∙ sym (log-append h.written line);
    all_lines = AllLines-append h.written line h.all_lines l;
    replayed = replay-append h.written line read [] states l.filled p h.replayed;
  }

  pub Replays-lines :
      (content : Text) (states : BTreeMap S)
      → Replays content states
      → replay parse id [] (lines content) ≡ ok states
  Replays-lines content states h = rw (h.is_log, lines-log h.written h.all_lines) h.replayed
