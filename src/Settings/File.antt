-- ===== src/Settings/File.antt =====
-- `config_read` of src/cfg.c: the file is read line by line, and an option is set for each line that has one.
use agentsmith.Base.{
  ℕ, zero, suc, ◌-◌, Bool, true, false, not, ◌&&◌, [], ◌∷◌, Option, none, some, ◌==◌, ltb,
  if◌then◌else◌, length,
}
use agentsmith.Base.Outcome.{Outcome, ret, die, undefined, ◌>>=◌, ◌>>◌, Retval, ok}
use agentsmith.Base.Cstring.{Bytes}
use agentsmith.Watch.{buffsize}
use agentsmith.Exclude.Address.{split_at}
use agentsmith.Exclude.File.{fgets}
use agentsmith.Settings.{Settings, Defaults, init_config}
use agentsmith.Settings.Addresses.{Names, default_listen, config_callback_listen, is_none_yet}
use agentsmith.Settings.Options.{cfgcfg, set_config_option, check_paths}

-- A text up to its first newline.
unfoldable pub cut_newline : Bytes → Bytes
cut_newline [] = []
cut_newline (c ∷ cs) = if c == b'\n' then [] else c ∷ cut_newline cs

abbrev pub is_comment : Bytes → Bool
is_comment [] = false
is_comment (c ∷ cs) = c == b'#'

-- An option with no value is left out.
abbrev pub with_value : Bytes → Bytes → Option (Bytes × Bytes)
with_value token [] = none
with_value token (c ∷ cs) = some (token, c ∷ cs)

unfoldable pub option_in : Option (Bytes × Bytes) → Option (Bytes × Bytes)
unfolding cut_newline
option_in none = none
option_in (some (token, rest)) = with_value token (cut_newline rest)

-- The option of a line.
unfoldable pub option_of : Bytes → Option (Bytes × Bytes)
unfolding option_in split_at
option_of line =
    if ltb (length line) 2
    then none
    else if is_comment line
    then none
    else option_in (split_at b'=' line)

abbrev pub before_split : Bytes → Option (Bytes × Bytes) → Bytes
before_split line none = line
before_split line (some (token, rest)) = token

-- The buffer as `strsep` leaves it: the `=` is overwritten with a NUL.
unfoldable pub left_over : Bytes → Bytes
unfolding split_at
left_over line =
    if ltb (length line) 2
    then line
    else if is_comment line
    then line
    else before_split line (split_at b'=' line)

-- The body of the loop, on the line in the buffer.
unfoldable pub do_option : Names → Settings → Option (Bytes × Bytes) → Outcome Settings
unfolding set_config_option
do_option n s none = ret s
do_option n s (some (token, value)) = set_config_option n token value s

-- What the buffer holds after `fgets`: at the end of the file it is as before.
abbrev pub refilled : Option Bytes → Bytes → Option Bytes
refilled buff [] = buff
refilled buff (c ∷ cs) = some (c ∷ cs)

abbrev pub is_nil : Bytes → Bool
is_nil [] = true
is_nil (c ∷ cs) = false

unfoldable pub ends_in_newline : Bytes → Bool
ends_in_newline [] = false
ends_in_newline (c ∷ []) = c == b'\n'
ends_in_newline (c ∷ d ∷ cs) = ends_in_newline (d ∷ cs)

-- Whether `fgets` has met the end of the file.
unfoldable pub hits_eof : Bytes → Bytes → Bool
unfolding ends_in_newline
hits_eof line rest = is_nil rest && (not (ends_in_newline line) && ltb (length line) (buffsize - 1))

-- The loop up to `feof`, on fuel. The buffer holds nothing yet when the loop begins. Every read of `fgets` succeeds
-- or meets the end of the file: an error of reading, whose result the code does not look at, is not an answer here.
unfoldable pub config_lines : ℕ → Names → Option Bytes → Bytes → Settings → Outcome Settings
config_lines zero n buff file s = undefined
config_lines (suc fuel) n buff file s =
    let (line, rest) = fgets (buffsize - 1) file in
    elim (refilled buff line) [
      | none ↦ undefined
      | some b ↦ do
        s' ← do_option n s (option_of b)
        elim (hits_eof line rest) [
          | true ↦ ret s'
          | false ↦ config_lines fuel n (some (left_over b)) rest s'
        ]
    ]

-- The default is listened to if the file names nothing.
unfoldable pub default_if_none : Names → Settings → Outcome Settings
default_if_none n s =
    if is_none_yet s.listen then config_callback_listen n default_listen s else ret s

-- `config_read`. The flag says whether `access` grants the file, which is `none` if `fopen` fails;
-- `access` is asked for the paths too.
unfoldable pub config_read :
    Defaults
    → Names
    → (Bytes → ℕ → Bool)
    → Bool
    → Option Bytes
    → Settings
    → Outcome (Settings × Retval)
unfolding init_config config_lines check_paths default_if_none
config_read d n access granted none s = die 1
config_read d n access granted (some file) s =
    if granted
    then (do
      s' ← config_lines (suc (suc (length file))) n none file (init_config d s)
      check_paths access cfgcfg s'
      s'' ← default_if_none n s'
      ret (s'', ok))
    else die 1
