-- ===== src/Exclude/Refusing.antt =====
-- What `exclude_add` of src/exclude.c refuses, the prefix that it does not survive, and
-- `exclude_clear`.
use agentsmith.Base.{
  ℕ, zero, suc, ◌-◌, ◌*◌, ◌%◌, ◌^◌, ◌≤◌, ◌<◌, Bool, true, false, Option, none, some, ltb, leb, ◌≡◌,
  refl, ◌∙◌, ◌⊎◌, inl, inr, arith, Bool-cases, length, replicate, ◌++◌, [], ◌∷◌, ◌==◌,
  length-append,
}
use agentsmith.Base.Outcome.{ret, die, undefined, ok, Env, locked_same, assert_holds}
use agentsmith.Base.Cstring.{Bytes}
use agentsmith.Slots.{chunk, reserve, start}
use agentsmith.Slots.Layout.{IsLaidOut, Reserved, reserve_cases, start-IsLaidOut}
use agentsmith.Records.Add.{IsServing}
use agentsmith.Exclude.Address.{
  inet, Parsed, exclude_parse_ip, parse_prefix, split_at, width, family_of, atoi, contains,
}
use agentsmith.Wire.{htonl}
use agentsmith.Exclude.Mask.{ipv4_mask, shift_mask, prefix_to_ipv6_mask, ipv6_mask}
use agentsmith.Exclude.Rules.{
  ExcludeRecord, rule4, rule6, RuleTable, Address, ipv4, ipv6, Inet, to_address, make_rule,
  insert_rule, add_parsed, exclude_add, exclude_clear,
}
use agentsmith.Exclude.Membership.{covered}

parse_prefix-le :
    (text : Bytes) (o : Option (Bytes × Bytes)) {p : Parsed}
    → parse_prefix text o ≡ some p
    → p.prefix ≤ width p.af
unfolding parse_prefix
parse_prefix-le text none h = ground arith
parse_prefix-le text (some (before, behind)) {p} h =
    elim (Bool-cases (ltb (width (family_of text)) (atoi behind))) [
      | inl e ↦ cc (rw e at h)
      | inr e ↦
          let h' = rw e at h in
          let le : atoi behind ≤ width (family_of text) = ground arith in ground arith
    ]

-- A text that is accepted has a prefix within the width of its family.
pub exclude_parse_ip-le :
    (copy : Bool) (text : Bytes) {p : Parsed}
    → exclude_parse_ip copy text ≡ ret (some p)
    → p.prefix ≤ width p.af
unfolding exclude_parse_ip
exclude_parse_ip-le copy text {p} h = elim (Bool-cases (ltb (length text) 3)) [
  | inl short ↦ cc (rw short at h)
  | inr long ↦ elim (Bool-cases copy) [
    | inl m ↦ parse_prefix-le text (split_at b'/' text) {p = p} (ground (arith, rw (long, m) at h))
    | inr m ↦ cc (rw (long, m) at h)
  ]
]

-- The prefixes for which a record can be made.
abbrev pub IsUsable : Address → ℕ → Type 0
IsUsable (ipv4 a) prefix = (0 < prefix) × (prefix ≤ 32)
IsUsable (ipv6 a) prefix = prefix ≤ 128

-- A record can be made for every address and every prefix within the width, but for the prefix 0 of
-- an IPv4 network.
pub make_rule_total :
    (a : Address) (prefix : ℕ)
    → IsUsable a prefix
    → (r : ExcludeRecord) × (make_rule a prefix ≡ ret r)
unfolding make_rule ipv4_mask shift_mask prefix_to_ipv6_mask
make_rule_total (ipv4 net) prefix (lo, hi) =
    (rule4 net (htonl (0xffff_ffff * 2 ^ (32 - prefix) % 2 ^ 32)), ground arith)
make_rule_total (ipv6 net) prefix hi = elim (Bool-cases (leb prefix 128)) [
  | inl e ↦ (rule6 net (ipv6_mask prefix), rw e)
  | inr e ↦ absurd (ground arith)
]

-- The text of a network with the prefix 0.
abbrev pub slash_zero : Bytes → Bytes
slash_zero ip = ip ++ b'/' ∷ b'0' ∷ []

split_at-slash_zero :
    (ip : Bytes) → contains b'/' ip ≡ false → split_at b'/' (slash_zero ip) ≡ some (ip, b'0' ∷ [])
unfolding contains split_at
split_at-slash_zero [] h = refl
split_at-slash_zero (c ∷ ip) h = elim (Bool-cases (c == b'/')) [
  | inl e ↦ cc (rw e at h)
  | inr e ↦ rw (e, split_at-slash_zero ip (rw e at h)) refl
]

contains-slash_zero :
    (ip : Bytes) → contains b':' ip ≡ false → contains b':' (slash_zero ip) ≡ false
unfolding contains
contains-slash_zero [] h = refl
contains-slash_zero (c ∷ ip) h = elim (Bool-cases (c == b':')) [
  | inl e ↦ cc (rw e at h)
  | inr e ↦ rw e (contains-slash_zero ip (rw e at h))
]

-- Such a text, of an address in IPv4 with a byte at least, is accepted with the prefix 0.
exclude_parse_ip_zero :
    (copy : Bool) (c : ℕ) (ip : Bytes)
    → copy ≡ true
    → contains b'/' (c ∷ ip) ≡ false
    → contains b':' (c ∷ ip) ≡ false
    → exclude_parse_ip copy (slash_zero (c ∷ ip))
      ≡ ret (some (record { ip = c ∷ ip; prefix = 0; af = inet }))
unfolding exclude_parse_ip parse_prefix atoi
exclude_parse_ip_zero copy c ip m slash colon =
    rw (long_enough ip, m, split_at-slash_zero (c ∷ ip) slash, contains-slash_zero (c ∷ ip) colon)
      refl
  where
    long_enough : (ip : Bytes) → ltb (length (slash_zero (c ∷ ip))) 3 ≡ false
    long_enough ip = ground (arith, length-append ip (b'/' ∷ b'0' ∷ []))

-- A network in IPv4 that is written with the prefix 0, as 0.0.0.0/0, is accepted by the checks of
-- `exclude_add`, which then shifts a 32-bit mask by 32 bits: undefined behaviour. (The locks and memory are
-- granted, and the address is of one byte at least with neither `/` nor `:`, which `inet_pton` converts.)
pub exclude_add_zero_prefix :
    (e : Env) (net : Inet) (t : RuleTable) (c : ℕ) (ip : Bytes) {a : ℕ}
    → IsServing e
    → e.copy ≡ true
    → IsLaidOut t
    → contains b'/' (c ∷ ip) ≡ false
    → contains b':' (c ∷ ip) ≡ false
    → net.pton4 (c ∷ ip) ≡ some a
    → exclude_add e net t (slash_zero (c ∷ ip)) ≡ undefined
unfolding exclude_add add_parsed to_address make_rule
exclude_add_zero_prefix e net t c ip {a} s copy w slash colon converts =
    locked_same e t _ s.locks s.unlocks
    ∙ rw (exclude_parse_ip_zero e.copy c ip copy slash colon)
        (rw (converts, to_address) (at_slot (reserve_cases e.realloc t w)))
  where
    at_slot :
        ((u : RuleTable) × (i : ℕ) × (reserve e.realloc t ≡ ret (u, i)) × Reserved t u i)
          ⊎ ((reserve e.realloc t ≡ die 3) × (e.realloc ≡ false))
        → insert_rule e t (ipv4 a) 0 ≡ undefined
    at_slot (inl (u, i, h, res)) = rw (h, s.mallocs, insert_rule) refl
    at_slot (inr (h, m)) = cc (s.reallocs)

pub covered-replicate : (a : Address) (n : ℕ) → covered a (replicate n none) ≡ false
covered-replicate a zero = refl
covered-replicate a (suc n) = covered-replicate a n

-- With the locks and memory granted, `exclude_clear` leaves a vector in order, whose list covers nothing.
pub exclude_clear_served :
    (e : Env) (t : RuleTable)
    → IsServing e
    → t.initialized ≡ true
    → (u : RuleTable) × (exclude_clear e true t ≡ ret (u, ok))
      × IsLaidOut u
      × ((a : Address) → covered a u.slots ≡ false)
unfolding exclude_clear
exclude_clear_served e t s i = (
  start (record t { size = chunk; fill = 0 }),
  assert_holds t.initialized _ i ∙ locked_same e t _ s.locks s.unlocks,
  start-IsLaidOut (record t { size = chunk; fill = 0 }) refl refl,
  λ a. covered-replicate a chunk,
)
