-- ===== src/Exclude/Rules.antt =====
-- The vector of exclude records of src/exclude.c: `exclude_add`, `exclude_isexcluded`,
-- `exclude_clear`, `exclude_init` and `exclude_destroy`.
use agentsmith.Base.{ℕ, Bool, false, ◌&&◌, [], Option, none, some, ◌==◌, if◌then◌else◌}
use agentsmith.Base.Outcome.{Outcome, ret, die, ◌>>=◌, ◌>>◌, assert, Retval, ok, err, Env, locked}
use agentsmith.Base.Cstring.{Bytes}
use agentsmith.Slots.{Table, chunk, find_slot, reserve, store, start}
use agentsmith.Exclude.Address.{Family, inet, inet6, Parsed, exclude_parse_ip, width}
use agentsmith.Exclude.Mask.{ipv4_mask, prefix_to_ipv6_mask, ipv4_in_net, ipv6_in_net}

-- `struct _excluderecord`: a network with its mask, for either family.
pub data ExcludeRecord : Type 0 where
  rule4 : (net mask : ℕ) → ExcludeRecord
  rule6 : (net mask : Bytes) → ExcludeRecord

abbrev pub RuleTable : Type 0
RuleTable = Table ExcludeRecord

-- An address in binary form.
pub data Address : Type 0 where
  ipv4 : ℕ → Address
  ipv6 : Bytes → Address

-- `inet_pton` of the system, for AF_INET and AF_INET6; `none` is a result other than 1.
pub record Inet : Type 0 where
  pub pton4 : Bytes → Option ℕ
  pub pton6 : Bytes → Option Bytes

unfoldable pub to_address : Inet → Family → Bytes → Option Address
to_address net inet ip = elim (net.pton4 ip) [ none ↦ none | some a ↦ some (ipv4 a) ]
to_address net inet6 ip = elim (net.pton6 ip) [ none ↦ none | some a ↦ some (ipv6 a) ]

-- Whether a record is of the family of an address, and its network holds the address.
unfoldable pub covers : Address → ExcludeRecord → Bool
unfolding ipv4_in_net ipv6_in_net
covers (ipv4 ip) (rule4 net mask) = ipv4_in_net net mask ip
covers (ipv6 ip) (rule6 net mask) = ipv6_in_net net mask ip
covers _ _ = false

-- The record that `exclude_add` fills in for an address and a prefix.
unfoldable pub make_rule : Address → ℕ → Outcome ExcludeRecord
unfolding ipv4_mask prefix_to_ipv6_mask
make_rule (ipv4 net) prefix = do mask ← ipv4_mask prefix; ret (rule4 net mask)
make_rule (ipv6 net) prefix = do mask ← prefix_to_ipv6_mask prefix; ret (rule6 net mask)

-- The end of `exclude_add`: a slot, a record in it, and the fill.
unfoldable pub insert_rule : Env → RuleTable → Address → ℕ → Outcome (RuleTable × Retval)
insert_rule e t net prefix = do
  (t', pos) ← reserve e.realloc t
  if e.malloc then (do rule ← make_rule net prefix; ret (store t' pos rule, ok)) else ret (t', err)

unfoldable pub add_address : Env → RuleTable → ℕ → Option Address → Outcome (RuleTable × Retval)
unfolding insert_rule
add_address e t prefix none = ret (t, err)
add_address e t prefix (some net) = insert_rule e t net prefix

unfoldable pub add_parsed : Env → Inet → RuleTable → Option Parsed → Outcome (RuleTable × Retval)
unfolding add_address
add_parsed e net t none = ret (t, err)
add_parsed e net t (some p) = add_address e t p.prefix (to_address net p.af p.ip)

-- `exclude_add`
unfoldable pub exclude_add : Env → Inet → RuleTable → Bytes → Outcome (RuleTable × Retval)
unfolding add_parsed
exclude_add e net t ipaddr =
    locked e t (do p ← exclude_parse_ip e.copy ipaddr; add_parsed e net t p)

unfoldable pub find_address : RuleTable → Option Address → Option (ℕ × ExcludeRecord)
find_address t none = none
find_address t (some ip) = find_slot (covers ip) t.slots 0 t.fill

unfoldable pub find_parsed : Inet → RuleTable → Option Parsed → Outcome (Option (ℕ × ExcludeRecord))
find_parsed net t none = ret none
find_parsed net t (some p) = do
  assert (p.prefix == width p.af)
  ret (find_address t (to_address net p.af p.ip))

-- `_records_find` of src/exclude.c
unfoldable pub rules_find : Bool → Inet → RuleTable → Bytes → Outcome (Option (ℕ × ExcludeRecord))
unfolding find_parsed
rules_find copy net t ipaddr = do p ← exclude_parse_ip copy ipaddr; find_parsed net t p

-- RETVAL_OK for a hit.
abbrev pub hit {ℓ} : {A : Type ℓ} → Option A → Retval
hit none = err
hit (some _) = ok

-- `exclude_isexcluded`
unfoldable pub exclude_isexcluded : Env → Inet → RuleTable → Bytes → Outcome (RuleTable × Retval)
unfolding rules_find
exclude_isexcluded e net t ipaddr =
    locked e t (do found ← rules_find e.copy net t ipaddr; ret (t, hit found))

-- `exclude_clear`; the flag says whether `calloc` finds memory for the new block.
unfoldable pub exclude_clear : Env → Bool → RuleTable → Outcome (RuleTable × Retval)
unfolding start
exclude_clear e calloc t = do
  assert t.initialized
  locked e t (if calloc then ret (start (record t { size = chunk; fill = 0 }), ok) else die 3)

-- `exclude_init`: nothing on a second call.
unfoldable pub exclude_init : Bool → ℕ → RuleTable → Outcome RuleTable
unfolding start
exclude_init calloc mutex t =
    if t.initialized then ret t else if calloc && mutex == 0 then ret (start t) else die 3

-- `exclude_destroy`: the vector is freed, and the statics stay.
unfoldable pub exclude_destroy : RuleTable → RuleTable
exclude_destroy t = if t.initialized then record t { slots = [] } else t
