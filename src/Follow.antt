-- ===== src/Follow.antt =====
-- src/follow.c: the log file is read as it grows, and cut into lines. What is done with a line
-- (`regex_do`) is a parameter, on a state of its own.
pub mod Lines
pub mod Growth
pub mod Cutting
pub mod Counted
mod Tests
use agentsmith.Base.{
  ℕ, ◌+◌, ◌-◌, Bool, true, false, List, [], ◌∷◌, ◌++◌, Option, none, some, ◌==◌, ltb, drop,
  if◌then◌else◌, length,
}
use agentsmith.Base.Outcome.{Outcome, ret, die, ◌>>=◌}
use agentsmith.Base.Cstring.{Bytes}
use agentsmith.Watch.{buffsize}

-- BUFF up to `buffpos` takes one more byte: a line that is handed on, or more to wait for.
unfoldable pub put_byte : Bytes → ℕ → Option Bytes × Bytes
put_byte buff c =
    if length (buff ++ c ∷ []) == buffsize - 1
    then (some (buff ++ c ∷ []), [])
    else if c == b'\n'
    then (some (buff ++ c ∷ []), [])
    else (none, buff ++ c ∷ [])

module _ {S : Type 0} (regex_do : S → Bytes → Outcome S) where
  unfoldable pub do_line : S → Option Bytes → Outcome S
  do_line s none = ret s
  do_line s (some line) = regex_do s line

  -- `readtoeof`, on the bytes that `fgetc` gives before the end of the file, an error or the stop: in
  -- all three cases it returns, and the static buffer keeps what is left.
  unfoldable pub readtoeof : Bytes → S → Bytes → Outcome (Bytes × S)
  unfolding put_byte do_line
  readtoeof buff s [] = ret (buff, s)
  readtoeof buff s (c ∷ cs) = do
    let (line, buff') = put_byte buff c
    s' ← do_line s line
    readtoeof buff' s' cs

-- The locals of `follow`, the offset of the open file, and the static buffer.
pub record Following : Type 0 where
  pub opened : Bool
  pub offset : ℕ
  pub lastpos : ℕ
  pub curino : ℕ
  pub lastino : ℕ
  pub buff : Bytes

-- What the system answers in one round: the size that `stat` gives, whether the file can be opened, and
-- the bytes of the file that is read.
pub record RoundEnv : Type 0 where
  pub stat : Option ℕ
  pub opens : Bool
  pub content : Bytes

-- The start of `follow`: it opens the file and skips what is there.
unfoldable pub follow_start : Bool → Option (ℕ × ℕ) → Bool → Bytes → Outcome Following
follow_start opens none seeks buff = die 1
follow_start opens (some (size, ino)) seeks buff =
    if opens
    then (if seeks
        then ret (record {
          opened = true;
          offset = size;
          lastpos = size;
          curino = ino;
          lastino = ino;
          buff = buff;
        })
        else die 1)
    else die 1

-- The file again: opened after it had gone, or when its inode has changed.
unfoldable pub reopen : Bool → Following → Following
reopen opens f =
    if f.opened
    then (if f.lastino == f.curino then f else record f {
      opened = opens;
      offset = 0;
      lastino = if opens then f.curino else f.lastino;
    })
    else record f { opened = opens; offset = 0 }

module _ {S : Type 0} (regex_do : S → Bytes → Outcome S) where
  -- The file is read from the offset on.
  unfoldable pub read_on : Following → S → Bytes → ℕ → Outcome (Following × S)
  unfolding readtoeof
  read_on f s content curpos = do
    (buff, s') ← readtoeof regex_do f.buff s (drop f.offset content)
    ret (
      record f {
        offset = f.offset + length (drop f.offset content);
        lastpos = curpos;
        buff = buff;
      },
      s',
    )

  -- The end of a round: there is new data, or the file shrank and is read from its start.
  unfoldable pub read_new : RoundEnv → Following → S → ℕ → Outcome (Following × S)
  unfolding read_on
  read_new e f s curpos =
      if ltb f.lastpos curpos
      then read_on f s e.content curpos
      else if ltb curpos f.lastpos
      then (if e.opens
          then read_on (record f { offset = 0; lastpos = 0 }) s e.content curpos
          else ret (record f { opened = false }, s))
      else ret (f, s)

  -- The body of the loop of `follow`.
  unfoldable pub follow_round : RoundEnv → Following → S → Outcome (Following × S)
  unfolding reopen read_new
  follow_round e f s = elim e.stat [
    | none ↦ ret (record f { opened = false }, s)
    | some size ↦
        let f' = reopen e.opens f in if f'.opened then read_new e f' s size else ret (f', s)
  ]

  -- The loop, for the rounds up to the stop.
  unfoldable pub follow_rounds : List RoundEnv → Following → S → Outcome (Following × S)
  unfolding follow_round
  follow_rounds [] f s = ret (f, s)
  follow_rounds (e ∷ es) f s = do (f', s') ← follow_round e f s; follow_rounds es f' s'
