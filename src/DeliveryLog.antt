-- ===== src/DeliveryLog.antt =====
-- The append-only JSON Lines files of src/siem/buffer.rs and src/archive/s3/queue.rs: a line is
-- appended for every change of an entry's status, and a reader replays the lines into a `BTreeMap`
-- by the entry's id, where the last line of an id wins. A file is its text, `none` where the file
-- does not exist; how the file system answers is an argument of each operation.
pub mod Order
pub mod Replay
pub mod Pending
pub mod Resend
use mipsorcu.Prelude.{
  ◌+◌, length, ltb, ◌&&◌, true, false, ℕ, Bool, Text, text_eq, text_lt, Option, none, some, Result,
  ok, err, ◌>>=◌, List, [], ◌∷◌, ◌++◌, if◌then◌else◌, ◌==◌, is_blank, take,
}

-- `BTreeMap<String, V>`: the pairs in the order of their keys
abbrev pub BTreeMap {ℓ} : Type ℓ → Type ℓ
BTreeMap V = List (Text × V)

module _ {ℓ} {V : Type ℓ} where
  -- `BTreeMap::insert`
  unfoldable pub insert : Text → V → BTreeMap V → BTreeMap V
  unfolding text_eq text_lt
  insert k v [] = (k, v) ∷ []
  insert k v ((j, w) ∷ m) =
      let rest = insert k v m in
      if text_lt k j then (k, v) ∷ (j, w) ∷ m else if text_eq k j then (k, v) ∷ m else (j, w) ∷ rest

  -- `BTreeMap::remove`
  unfoldable pub remove : Text → BTreeMap V → BTreeMap V
  unfolding text_eq
  remove k [] = []
  remove k ((j, w) ∷ m) = let rest = remove k m in if text_eq k j then m else (j, w) ∷ rest

  -- `into_values`
  abbrev pub values : BTreeMap V → List V
  values [] = []
  values ((k, v) ∷ m) = v ∷ values m

abbrev pub newline : ℕ
newline = 10

abbrev carriage_return : ℕ
carriage_return = 13

-- a character put on the first line
unfoldable pub push : ℕ → List Text → List Text
push c [] = (c ∷ []) ∷ []
push c (line ∷ rest) = (c ∷ line) ∷ rest

unfoldable pub at_newline : Text → Bool
at_newline [] = false
at_newline (c ∷ s) = c == newline

-- `BufRead::lines` gives no line for what follows a last newline, and drops a `\r` before a newline.
unfoldable pub lines : Text → List Text
unfolding push at_newline
lines [] = []
lines (c ∷ s) =
    let rest = lines s in
    if c == newline
    then [] ∷ rest
    else if c == carriage_return && at_newline s
    then rest
    else push c rest

-- How the file system answers an append: the file cannot be opened; a write fails when the given
-- number of characters has reached the file; all is written and `sync_data` fails; all succeeds.
pub data AppendIo : Type 0 where
  refuses : AppendIo
  tears : ℕ → AppendIo
  unsynced : AppendIo
  writes : AppendIo

abbrev pub File : Type 0
File = Option Text

abbrev pub contents : File → Text
contents none = []
contents (some s) = s

-- a failed write inside `serde_json::to_writer` is an error of serde_json
pub data AppendError : Type 0 where
  io_failed json_failed : AppendError

-- `create(true).append(true).open`, `to_writer`, `write_all(b"\n")`, `sync_data`
abbrev pub append_line : AppendIo → Text → File → Result AppendError (Unit {0}) × File
append_line refuses line file = (err io_failed, file)
append_line (tears n) line file = (
  err (if ltb n (length line) then json_failed else io_failed),
  some (contents file ++ take n (line ++ newline ∷ [])),
)
append_line unsynced line file = (err io_failed, some (contents file ++ (line ++ newline ∷ [])))
append_line writes line file = (ok tt, some (contents file ++ (line ++ newline ∷ [])))

module _ {ℓ κ} {E : Type ℓ} {S : Type κ} where
  -- `for line in reader.lines()`: blank lines are skipped, the others parsed and inserted by their id
  unfoldable pub replay :
      (Text → Result E S) → (S → Text) → BTreeMap S → List Text → Result E (BTreeMap S)
  unfolding insert is_blank
  replay parse id states [] = ok states
  replay parse id states (line ∷ rest) =
      if is_blank line
      then replay parse id states rest
      else (parse line >>= λ read. replay parse id (insert (id read) read states) rest)

  -- the values whose last status is `Pending`, decoded; the first one that cannot be ends the loop
  unfoldable pub collect_pending {μ} :
      {V : Type μ} → (S → Bool) → (S → Result E V) → BTreeMap S → Result E (List V)
  collect_pending is_pending decode [] = ok []
  collect_pending is_pending decode ((id, state) ∷ states) =
      let rest = collect_pending is_pending decode states in
      if is_pending state
      then (decode state >>= λ value. rest >>= λ pending. ok (value ∷ pending))
      else rest

-- The loop of a resend: each pending value is sent and marked or not; the turns that do both and the
-- others are counted.
unfoldable pub resend_all {ℓ κ} :
    {V : Type ℓ} {B : Type κ} → (ℕ → V → B → Bool × B) → ℕ → List V → ℕ → ℕ → B → (ℕ × ℕ) × B
resend_all turn i [] sent failed log = ((sent, failed), log)
resend_all turn i (value ∷ rest) sent failed log =
    let (done, after) = turn i value log in
    resend_all turn (i + 1) rest (if done then sent + 1 else sent)
      (if done then failed else failed + 1) after

-- `spawn_blocking`: the task runs and its append meets the file system, or the runtime cancels it
pub data Spawn : Type 0 where
  runs : AppendIo → Spawn
  cancelled : Spawn
