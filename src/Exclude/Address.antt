-- ===== src/Exclude/Address.antt =====
-- `_exclude_parse_ip` of src/exclude.c: an address or network as text, split into its parts.
use agentsmith.Base.{
  ℕ, ◌+◌, ◌-◌, ◌*◌, ◌%◌, ◌^◌, min, Bool, false, ◌&&◌, ◌||◌, [], ◌∷◌, Option, none, some, ◌==◌, ltb,
  leb, if◌then◌else◌, length,
}
use agentsmith.Base.Outcome.{Outcome, ret, undefined}
use agentsmith.Base.Cstring.{Bytes}

-- AF_INET and AF_INET6.
pub data Family : Type 0 where
  inet inet6 : Family

-- `strchr(str, c)`: the text before the first c, and the text behind it.
unfoldable pub split_at : ℕ → Bytes → Option (Bytes × Bytes)
split_at c [] = none
split_at c (x ∷ xs) =
    let rest = split_at c xs in
    if x == c
    then some ([], xs)
    else elim rest [ none ↦ none | some (before, behind) ↦ some (x ∷ before, behind) ]

-- `strchr(str, c) != NULL`
unfoldable pub contains : ℕ → Bytes → Bool
contains c [] = false
contains c (x ∷ xs) = x == c || contains c xs

-- The digits at the front of a text, as a number.
unfoldable pub decimal : ℕ → Bytes → ℕ
decimal acc [] = acc
decimal acc (c ∷ cs) =
    let rest = decimal (acc * 10 + (c - b'0')) cs in if leb b'0' c && leb c b'9' then rest else acc

-- `isspace`
abbrev is_space : ℕ → Bool
is_space c = c == b' ' || leb 9 c && leb c 13

unfoldable pub skip_space : Bytes → Bytes
skip_space [] = []
skip_space (c ∷ cs) = if is_space c then skip_space cs else c ∷ cs

-- `(unsigned int) atoi(str)` where `long` has 64 bits: the value saturates as that of `strtol`, and
-- is cut to 32 bits.
unfoldable pub atoi_text : Bytes → ℕ
unfolding decimal
atoi_text [] = 0
atoi_text (c ∷ cs) =
    if c == b'-'
    then (2 ^ 64 - min (decimal 0 cs) (2 ^ 63)) % 2 ^ 32
    else if c == b'+'
    then min (decimal 0 cs) (2 ^ 63 - 1) % 2 ^ 32
    else min (decimal 0 (c ∷ cs)) (2 ^ 63 - 1) % 2 ^ 32

unfoldable pub atoi : Bytes → ℕ
unfolding atoi_text skip_space
atoi str = atoi_text (skip_space str)

-- The text without a newline at its end.
unfoldable pub chomp : Bytes → Bytes
chomp [] = []
chomp (c ∷ []) = if c == b'\n' then [] else c ∷ []
chomp (c ∷ d ∷ cs) = c ∷ chomp (d ∷ cs)

-- What a successful call stores through `ip`, `prefix` and `af`.
pub record Parsed : Type 0 where
  pub ip : Bytes
  pub prefix : ℕ
  pub af : Family

-- The widest prefix of a family.
abbrev pub width : Family → ℕ
width inet = 32
width inet6 = 128

abbrev pub family_of : Bytes → Family
family_of str = if contains b':' str then inet6 else inet

unfoldable pub parse_prefix : Bytes → Option (Bytes × Bytes) → Option Parsed
unfolding atoi chomp
parse_prefix str (some (before, behind)) =
    if ltb (width (family_of str)) (atoi behind)
    then none
    else some (record { ip = before; prefix = atoi behind; af = family_of str })
parse_prefix str none =
    some (record { ip = chomp str; prefix = width (family_of str); af = family_of str })

-- `_exclude_parse_ip` on a string. `none` is RETVAL_ERR. The text is copied through the result of
-- a `malloc` that is not checked.
unfoldable pub exclude_parse_ip : Bool → Bytes → Outcome (Option Parsed)
unfolding split_at contains parse_prefix
exclude_parse_ip copy str =
    if ltb (length str) 3
    then ret none
    else if copy
    then ret (parse_prefix str (split_at b'/' str))
    else undefined
