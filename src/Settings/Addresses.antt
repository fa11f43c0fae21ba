-- ===== src/Settings/Addresses.antt =====
-- The options `listen` and `inform_agent` of src/cfg.c: names separated by spaces, each with a port.
use agentsmith.Base.{
  ℕ, zero, suc, ◌+◌, ◌-◌, Bool, true, false, List, [], ◌∷◌, ◌++◌, Option, none, some, ◌==◌, take,
  drop, if◌then◌else◌, length,
}
use agentsmith.Base.Outcome.{Outcome, ret, die, ◌>>=◌, ◌>>◌, assert}
use agentsmith.Base.Cstring.{Bytes}
use agentsmith.Exclude.Address.{split_at}
use agentsmith.Settings.{AddrInfo, Settings}

-- DEFAULT_LISTEN_PORT and DEFAULT_LISTEN
abbrev pub default_port : Bytes
default_port = b'4' ∷ b'8' ∷ b'6' ∷ b'2' ∷ b'1' ∷ []

abbrev pub default_listen : Bytes
default_listen = b'0' ∷ b'.' ∷ b'0' ∷ b'.' ∷ b'0' ∷ b'.' ∷ b'0' ∷ b':' ∷ default_port

-- The word that has been read so far, and the words behind it.
abbrev flush : Bytes → List Bytes → List Bytes
flush [] words = words
flush (c ∷ cs) words = (c ∷ cs) ∷ words

-- `strtok(copy, " ")` up to the end.
unfoldable pub words : Bytes → Bytes → List Bytes
words word [] = flush word []
words word (c ∷ cs) = if c == b' ' then flush word (words [] cs) else words (word ++ c ∷ []) cs

-- `[address]` or `[address]:port`: the host is cut two bytes before the colon, or one before the end.
unfoldable pub split_bracket : Bytes → Bytes × Bytes → Bytes × Bytes
unfolding split_at
split_bracket word (before, behind) = elim (split_at b':' behind) [
  | none ↦ (take (length word - 2) (drop 1 word), default_port)
  | some (middle, port) ↦ (take (length before + 1 + length middle - 2) (drop 1 word), port)
]

unfoldable pub split_colon : Bytes → Bytes × Bytes
unfolding split_at
split_colon word = elim (split_at b':' word) [
  | none ↦ (word, default_port)
  | some (host, port) ↦ (host, port)
]

-- The host and the port of a word; a bracket without its end is refused.
unfoldable pub split_word : Bytes → Option (Bytes × Bytes)
unfolding split_bracket split_colon
split_word [] = some (split_colon [])
split_word (c ∷ cs) =
    if c == b'['
    then elim (split_at b']' (c ∷ cs)) [
      | none ↦ none
      | some parts ↦ some (split_bracket (c ∷ cs) parts)
    ]
    else some (split_colon (c ∷ cs))

-- `getaddrinfo` for a host and a port; whether memory is found for the copy of the value and for the
-- items of the list.
pub record Names : Type 0 where
  pub getaddrinfo : Bytes → Bytes → Option AddrInfo
  pub copy : Bool
  pub item : Bool

unfoldable pub resolve : Names → Bytes → Option AddrInfo
unfolding split_word
resolve n word = elim (split_word word) [
  | none ↦ none
  | some (host, port) ↦ n.getaddrinfo host port
]

-- The loop of both callbacks, with room for so many items.
unfoldable pub resolve_words : Names → ℕ → List Bytes → Outcome (List AddrInfo)
unfolding resolve
resolve_words n zero ws = ret []
resolve_words n (suc room) [] = ret []
resolve_words n (suc room) (w ∷ ws) = elim (resolve n w) [
  | none ↦ resolve_words n (suc room) ws
  | some a ↦ if n.item then (do rest ← resolve_words n room ws; ret (a ∷ rest)) else die 1
]

abbrev pub is_none_yet : List AddrInfo → Bool
is_none_yet [] = true
is_none_yet (a ∷ more) = false

-- MAX_LISTEN
abbrev pub max_listen : ℕ
max_listen = 256

-- `_config_callback_listen`
unfoldable pub config_callback_listen : Names → Bytes → Settings → Outcome Settings
unfolding words resolve_words
config_callback_listen n value s = do
  assert (is_none_yet s.listen)
  assert n.copy
  listen ← resolve_words n max_listen (words [] value)
  ret (record s { listen = listen })

-- `_config_callback_inform`, which has no limit: there is room for every word.
unfoldable pub config_callback_inform : Names → Bytes → Settings → Outcome Settings
unfolding words resolve_words
config_callback_inform n value s = do
  assert (is_none_yet s.inform_agents)
  assert n.copy
  agents ← resolve_words n (length (words [] value)) (words [] value)
  ret (record s { inform_agents = agents })
