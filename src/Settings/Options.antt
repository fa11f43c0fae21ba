-- ===== src/Settings/Options.antt =====
-- The table of options of src/cfg.c, `_set_config_option` and `_check_paths_in_config`.
use Prim.Native.Char.{code}
use Prim.Native.String.{String}
use agentsmith.Base.{
  ℕ, ◌+◌, ◌-◌, ◌*◌, ◌%◌, ◌^◌, min, Bool, true, false, ◌&&◌, List, [], ◌∷◌, Option, none, some, ◌==◌,
  ltb, leb, if◌then◌else◌, equal,
}
use agentsmith.Base.Outcome.{Outcome, ret, die, ◌>>=◌}
use agentsmith.Base.Cstring.{Bytes, c_str, strncpy}
use agentsmith.Config.{Config}
use agentsmith.Watch.{buffsize}
use agentsmith.Exclude.Address.{skip_space}
use agentsmith.Settings.{max_path, Settings, config_sanitize}
use agentsmith.Settings.Addresses.{Names, config_callback_listen, config_callback_inform}

-- The value of a digit, 16 for what is none.
abbrev digit : ℕ → ℕ
digit c =
    if leb b'0' c && leb c b'9'
    then c - b'0'
    else if leb b'a' c && leb c b'f'
    then c - b'a' + 10
    else if leb b'A' c && leb c b'F'
    then c - b'A' + 10
    else 16

-- The digits of a base at the front of a text, and what they amount to.
unfoldable pub number : ℕ → ℕ → Bytes → ℕ
number base acc [] = acc
number base acc (c ∷ cs) =
    let rest = number base (acc * base + digit c) cs in if ltb (digit c) base then rest else acc

unfoldable pub digits : ℕ → Bytes → Option ℕ
unfolding number
digits base [] = none
digits base (c ∷ cs) = if ltb (digit c) base then some (number base 0 (c ∷ cs)) else none

-- The base by the prefix: 0x for 16, 0 for 8, or 10.
unfoldable pub magnitude : Bytes → Option ℕ
unfolding digits
magnitude [] = none
magnitude (c ∷ []) = digits 10 (c ∷ [])
magnitude (c ∷ d ∷ cs) =
    if c == b'0'
    then (if d == b'x'
        then digits 16 cs
        else if d == b'X'
        then digits 16 cs
        else digits 8 (c ∷ d ∷ cs))
    else digits 10 (c ∷ d ∷ cs)

abbrev negated : Option ℕ → Option ℕ
negated none = none
negated (some n) = some (2 ^ 64 - min n (2 ^ 63))

abbrev positive : Option ℕ → Option ℕ
positive none = none
positive (some n) = some (min n (2 ^ 63 - 1))

unfoldable pub signed_number : Bytes → Option ℕ
unfolding magnitude
signed_number [] = none
signed_number (c ∷ cs) =
    if c == b'-'
    then negated (magnitude cs)
    else if c == b'+'
    then positive (magnitude cs)
    else positive (magnitude (c ∷ cs))

-- `sscanf(value, "%li", …)` where `long` has 64 bits: the bit pattern, or nothing is stored.
unfoldable pub scan_integer : Bytes → Option ℕ
unfolding signed_number skip_space
scan_integer value = signed_number (skip_space value)

abbrev pub Put : Type 0
Put = ℕ → Config → Config

-- `enum cfgvaltype`, with the place of the value, and for a path the mode that `access` checks.
pub data CfgValue : Type 0 where
  cfg_str : (Bytes → Settings → Settings) → CfgValue
  cfg_path : Option ℕ → (Settings → Bytes) → (Bytes → Settings → Settings) → CfgValue
  cfg_int32 : Put → CfgValue
  cfg_int64 : Put → CfgValue
  cfg_callback : (Names → Bytes → Settings → Outcome Settings) → CfgValue

pub record CfgEntry : Type 0 where
  pub name : Bytes
  pub value : CfgValue

-- The modes: R_OK | F_OK, and with X_OK.
abbrev readable : Option ℕ
readable = some 4

abbrev executable : Option ℕ
executable = some 5

-- The bytes of a C string.

abbrev bytes_of : String → Bytes
bytes_of String.[] = []
bytes_of (String.◌∷◌ c s) = code c ∷ bytes_of s

abbrev entry : String → CfgValue → CfgEntry
entry name value = record { name = bytes_of name; value = value }

-- `cfgcfg`, without its last entry, which ends it.
unfoldable pub cfgcfg : List CfgEntry
unfolding config_callback_listen config_callback_inform
cfgcfg =
    entry "pidfile" (cfg_path none (λ s. s.pidfile) (λ x s. record s { pidfile = x }))
    ∷ entry "syslogfile"
        (cfg_path readable (λ s. s.syslogfile) (λ x s. record s { syslogfile = x }))
    ∷ entry "action" (cfg_path executable (λ s. s.action) (λ x s. record s { action = x }))
    ∷ entry "exclude" (cfg_path readable (λ s. s.exclude) (λ x s. record s { exclude = x }))
    ∷ entry "regex" (cfg_str (λ x s. record s { regex = x }))
    ∷ entry "action_threshold" (cfg_int32 (λ x c. record c { action_threshold = x }))
    ∷ entry "time_interval" (cfg_int64 (λ x c. record c { time_interval = x }))
    ∷ entry "purge_after" (cfg_int64 (λ x c. record c { purge_after = x }))
    ∷ entry "server" (cfg_int32 (λ x c. record c { server = x }))
    ∷ entry "server_timeout" (cfg_int32 (λ x c. record c { server_timeout = x }))
    ∷ entry "inform" (cfg_int32 (λ x c. record c { inform = x }))
    ∷ entry "inform_retry" (cfg_int32 (λ x c. record c { inform_retry = x }))
    ∷ entry "inform_retry_wait" (cfg_int32 (λ x c. record c { inform_retry_wait = x }))
    ∷ entry "maxinconnections" (cfg_int32 (λ x c. record c { maxinconnections = x }))
    ∷ entry "remote_authoritative" (cfg_int32 (λ x c. record c { remote_authoritative = x }))
    ∷ entry "listen" (cfg_callback config_callback_listen)
    ∷ entry "inform_agent" (cfg_callback config_callback_inform)
    ∷ entry "server_backlog" (cfg_int32 (λ x c. record c { server_backlog = x }))
    ∷ entry "ssl_ca_file"
        (cfg_path readable (λ s. s.ssl_ca_file) (λ x s. record s { ssl_ca_file = x }))
    ∷ entry "ssl_crl_file"
        (cfg_path readable (λ s. s.ssl_crl_file) (λ x s. record s { ssl_crl_file = x }))
    ∷ entry "ssl_server_cert"
        (cfg_path readable (λ s. s.ssl_server_cert) (λ x s. record s { ssl_server_cert = x }))
    ∷ entry "ssl_server_key"
        (cfg_path readable (λ s. s.ssl_server_key) (λ x s. record s { ssl_server_key = x }))
    ∷ entry "ssl_client_cert"
        (cfg_path readable (λ s. s.ssl_client_cert) (λ x s. record s { ssl_client_cert = x }))
    ∷ entry "ssl_client_key"
        (cfg_path readable (λ s. s.ssl_client_key) (λ x s. record s { ssl_client_key = x }))
    ∷ []

abbrev put_number : Put → Option ℕ → Settings → Settings
put_number put none s = s
put_number put (some n) s = record s { numbers = put n s.numbers }

abbrev int32_of : Option ℕ → Option ℕ
int32_of none = none
int32_of (some n) = some (n % 2 ^ 32)

-- The switch of `_set_config_option`.
unfoldable pub set_value : Names → CfgValue → Bytes → Settings → Outcome Settings
unfolding scan_integer strncpy
set_value n (cfg_str put) value s = ret (put (strncpy buffsize value) s)
set_value n (cfg_path mode get put) value s = ret (put (strncpy max_path value) s)
set_value n (cfg_int32 put) value s = ret (put_number put (int32_of (scan_integer value)) s)
set_value n (cfg_int64 put) value s = ret (put_number put (scan_integer value) s)
set_value n (cfg_callback cb) value s = cb n value s

-- Its loop over the table.
unfoldable pub set_entries : Names → List CfgEntry → Bytes → Bytes → Settings → Outcome Settings
unfolding set_value
set_entries n [] token value s = ret s
set_entries n (e ∷ es) token value s = elim (equal e.name token) [
  | true ↦ do s' ← set_value n e.value value s; set_entries n es token value s'
  | false ↦ set_entries n es token value s
]

-- `_set_config_option`; an unknown name is only logged.
unfoldable pub set_config_option : Names → Bytes → Bytes → Settings → Outcome Settings
unfolding set_entries cfgcfg
set_config_option n token value s = do
  s' ← set_entries n cfgcfg token value s
  ret (record s' { numbers = config_sanitize s'.numbers })

abbrev is_empty_text : Bytes → Bool
is_empty_text [] = true
is_empty_text (c ∷ cs) = false

-- One entry of `_check_paths_in_config`: `access` says whether a path may be used in a mode.
unfoldable pub path_ok : (Bytes → ℕ → Bool) → CfgValue → Settings → Bool
path_ok access (cfg_path (some mode) get put) s =
    if is_empty_text (c_str (get s)) then true else access (c_str (get s)) mode
path_ok access _ s = true

-- `_check_paths_in_config`: a path that may not be used ends the program.
unfoldable pub check_paths : (Bytes → ℕ → Bool) → List CfgEntry → Settings → Outcome (Unit {0})
unfolding path_ok
check_paths access [] s = ret tt
check_paths access (e ∷ es) s = if path_ok access e.value s then check_paths access es s else die 1
