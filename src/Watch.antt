-- ===== src/Watch.antt =====
-- src/regex.c: a line of the log, the address that the regular expression captures in it, and what is
-- done with the address.
pub mod Matching
pub mod Kept
mod Tests
use agentsmith.Base.{
  ℕ, ◌+◌, ◌-◌, Bool, true, false, ◌&&◌, Option, none, some, ◌==◌, ltb, leb, take, drop,
  if◌then◌else◌,
}
use agentsmith.Base.Outcome.{Outcome, ret, die, undefined, ◌>>=◌, ◌>>◌, Retval, ok, err, Env}
use agentsmith.Base.Cstring.{Bytes, c_str}
use agentsmith.Config.{Config}
use agentsmith.Records.{Vector, records_add_ip}
use agentsmith.Exclude.Rules.{Inet, RuleTable, exclude_isexcluded}

-- BUFFSIZE
abbrev pub buffsize : ℕ
buffsize = 1024

-- PCRE on CONFIG.regex: whether the expression compiles and can be studied, the result of
-- `pcre_fullinfo` with the number of captures, and what `pcre_exec` returns for a text, with the
-- offsets of the first capture.
pub record Pcre : Type 0 where
  pub compiles : Bool
  pub studies : Bool
  pub fullinfo : ℕ
  pub capturecount : ℕ
  pub exec : Bytes → ℕ × ℕ × ℕ

-- `regex_prepare`: what is wrong with the expression ends the program.
unfoldable pub regex_prepare : Pcre → Outcome (Unit {0})
regex_prepare p =
    if p.compiles && p.studies && p.fullinfo == 0 && p.capturecount == 1 then ret tt else die 2

-- The vector and the exclude list, and whether the expression is compiled.
pub record Store : Type 0 where
  pub vector : Vector
  pub rules : RuleTable
  pub compiled : Bool

-- What the system answers to the call of `exclude_isexcluded` and to that of `records_add_ip`.
pub record LineEnv : Type 0 where
  pub exclude : Env
  pub records : Env

-- `exclude_isexcluded(match) != 0`
abbrev pub is_acted_on : Retval → Bool
is_acted_on ok = false
is_acted_on err = true

-- The address is added unless it is excluded; an error of the addition is only logged.
unfoldable pub add_unless_excluded : Config → Inet → LineEnv → Store → Bytes → Outcome Store
unfolding exclude_isexcluded records_add_ip
add_unless_excluded c net e s text = do
  (rules, excluded) ← exclude_isexcluded e.exclude net s.rules text
  if is_acted_on excluded
      then (do
        (v, r) ← records_add_ip c e.records s.vector text
        ret (record s { vector = v; rules = rules }))
      else ret (record s { rules = rules })

-- The text between two offsets, copied to a buffer of BUFFSIZE bytes that is filled with zeros.
unfoldable pub copy_match : Bytes → ℕ → ℕ → Outcome Bytes
copy_match buff from until =
    if leb from until && ltb (until - from) buffsize
    then ret (take (until - from) (drop from buff))
    else undefined

unfoldable pub do_match : Config → Inet → LineEnv → Store → Bytes → ℕ × ℕ × ℕ → Outcome Store
unfolding add_unless_excluded copy_match
do_match c net e s buff (retval, from, until) =
    if retval == 2
    then (do text ← copy_match buff from until; add_unless_excluded c net e s text)
    else ret s

unfoldable pub prepare_once : Pcre → Bool → Outcome (Unit {0})
unfolding regex_prepare
prepare_once p true = ret tt
prepare_once p false = regex_prepare p

-- `regex_do`
unfoldable pub regex_do : Pcre → Config → Inet → LineEnv → Store → Bytes → Outcome Store
unfolding prepare_once do_match
regex_do p c net e s buff = do
  prepare_once p s.compiled
  do_match c net e (record s { compiled = true }) (c_str buff) (p.exec (c_str buff))

-- `regex_do` for one line after the other; the system answers for each of them.
abbrev pub count : Pcre → Config → Inet → (ℕ → LineEnv) → ℕ × Store → Bytes → Outcome (ℕ × Store)
count p c net e (n, s) line = do s' ← regex_do p c net (e n) s line; ret (n + 1, s')
