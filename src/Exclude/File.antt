-- ===== src/Exclude/File.antt =====
-- The thread of src/exclude.c that reads the exclude file.
use agentsmith.Base.{
  ℕ, zero, suc, ◌-◌, Bool, true, false, [], ◌∷◌, Option, none, some, ◌==◌, ltb, if◌then◌else◌,
  length,
}
use agentsmith.Base.Outcome.{Outcome, ret, ◌>>=◌, ok, err, Env}
use agentsmith.Base.Cstring.{Bytes}
use agentsmith.Exclude.Address.{chomp}
use agentsmith.Exclude.Rules.{Inet, RuleTable, exclude_add, exclude_clear}

-- MAX_EXCLUDE_LINE_LENGTH
abbrev pub max_exclude_line_length : ℕ
max_exclude_line_length = 100

-- What `fgets` reads with `room` bytes left in its buffer, and the rest of the file.
unfoldable pub fgets : ℕ → Bytes → Bytes × Bytes
fgets zero file = ([], file)
fgets (suc room) [] = ([], [])
fgets (suc room) (c ∷ file) = elim (c == b'\n') [
  | true ↦ (c ∷ [], file)
  | false ↦ let (line, rest) = fgets room file in (c ∷ line, rest)
]

-- The body of the loop for one line: a comment is skipped, a newline at the end of a line of more
-- than one byte is cut, and a line that `exclude_add` refuses is ignored.
unfoldable pub read_line : Env → Inet → RuleTable → Bytes → Outcome RuleTable
unfolding chomp exclude_add
read_line e net t [] = do (t', r) ← exclude_add e net t []; ret t'
read_line e net t (c ∷ cs) = if c == b'#' then ret t else (do
  let line = if ltb 1 (length (c ∷ cs)) then chomp (c ∷ cs) else c ∷ cs
  (t', r) ← exclude_add e net t line
  ret t')

-- The loop, on fuel: every round takes a byte of the file at least.
unfoldable pub read_lines : ℕ → Env → Inet → RuleTable → Bytes → Outcome RuleTable
unfolding fgets read_line
read_lines zero e net t file = ret t
read_lines (suc fuel) e net t [] = ret t
read_lines (suc fuel) e net t (c ∷ file) = do
  let (line, rest) = fgets (max_exclude_line_length - 1) (c ∷ file)
  t' ← read_line e net t line
  read_lines fuel e net t' rest

-- `_exclude_readfile_thread`. The name of the file may be NULL; the file is `none` where `access` or
-- `fopen` refuses it.
unfoldable pub exclude_readfile :
    Env → Bool → Inet → RuleTable → Option Bytes → Option Bytes → Outcome RuleTable
unfolding exclude_clear read_lines
exclude_readfile e calloc net t none file = ret t
exclude_readfile e calloc net t (some []) file = ret t
exclude_readfile e calloc net t (some (c ∷ name)) none = ret t
exclude_readfile e calloc net t (some (c ∷ name)) (some text) = do
  (t', r) ← exclude_clear e calloc t
  elim r [ ok ↦ read_lines (length text) e net t' text | err ↦ ret t' ]
