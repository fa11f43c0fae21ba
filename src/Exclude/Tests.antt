-- ===== src/Exclude/Tests.antt =====
-- Runs of src/exclude.c with a conversion that knows a few addresses.
use agentsmith.Base.{
  ℕ, zero, suc, ◌<◌, true, List, [], ◌∷◌, ◌++◌, none, some, ◌≡◌, refl, ◌⊎◌, arith, if◌then◌else◌,
  equal, replicate,
}
use agentsmith.Base.Outcome.{ret, undefined, ok, err, Env, ReturnsOrExits}
use agentsmith.Base.Cstring.{Bytes}
use agentsmith.Slots.{unstarted, start, store}
use agentsmith.Slots.Layout.{IsLaidOut, start-IsLaidOut, store-IsLaidOut}
use agentsmith.Records.Add.{IsServing}
use agentsmith.Wire.{of_memory}
use agentsmith.Wire.Memory.{IsBytes}
use agentsmith.Exclude.Address.{
  inet, exclude_parse_ip, split_at, contains, parse_prefix, atoi, skip_space, atoi_text, decimal,
  chomp,
}
use agentsmith.Exclude.Mask.{ipv4_mask, shift_mask}
use agentsmith.Exclude.Rules.{
  ExcludeRecord, rule4, RuleTable, ipv4, ipv6, Inet, to_address, covers, make_rule, exclude_add,
  exclude_isexcluded,
}
use agentsmith.Exclude.Membership.{answer, exclude_isexcluded-answer}
use agentsmith.Exclude.Adding.{
  Means, Covers, Unchanged, exclude_add-Covers, exclude_add-ReturnsOrExits,
}
use agentsmith.Base.{false, ◌≢◌}
use agentsmith.Exclude.Refusing.{slash_zero, exclude_add_zero_prefix}
use agentsmith.Exclude.Prefix.{same_prefix}
use agentsmith.Exclude.File.{read_lines}
use agentsmith.Exclude.Reading.{joined_lines, AreLines, AreFull, add_each, texts, read_lines_enough}
use agentsmith.Exclude.Ipv4.{covers-make_rule_ipv4}
use agentsmith.Exclude.Ipv6.{covers-make_rule_ipv6}

abbrev granting : Env
granting = record { lock = 0; unlock = 0; malloc = true; copy = true; realloc = true; now = 0 }

granting-IsServing : IsServing granting
granting-IsServing = record { locks = refl; unlocks = refl; mallocs = refl; reallocs = refl }

-- "10.0.0.0"
abbrev ten : Bytes
ten = b'1' ∷ b'0' ∷ b'.' ∷ b'0' ∷ b'.' ∷ b'0' ∷ b'.' ∷ b'0' ∷ []

abbrev ten_8 : Bytes
ten_8 = ten ++ b'/' ∷ b'8' ∷ []

abbrev known : Inet
known = record { pton4 = λ text. if equal text ten then some 10 else none; pton6 = λ text. none }

abbrev rules : RuleTable
rules = store (start unstarted) 0 (rule4 10 255)

rules-IsLaidOut : IsLaidOut rules
unfolding unstarted start
rules-IsLaidOut = store-IsLaidOut _ 0 _ (start-IsLaidOut unstarted refl refl) (omega arith)

exclude_isexcluded-answer_example :
    exclude_isexcluded granting known rules ten
    ≡ answer known rules (some (record { ip = ten; prefix = 32; af = inet }))
unfolding exclude_parse_ip split_at contains parse_prefix chomp
exclude_isexcluded-answer_example =
    exclude_isexcluded-answer granting known rules ten rules-IsLaidOut refl refl refl

ten-Means : Means granting known ten_8 (ipv4 10) (rule4 10 255)
unfolding exclude_parse_ip split_at contains parse_prefix atoi skip_space atoi_text decimal
    to_address make_rule ipv4_mask shift_mask of_memory equal agentsmith.Wire.htonl
ten-Means = record {
  parsed = record { ip = ten; prefix = 8; af = inet };
  parses = refl;
  converts = refl;
  masks = refl;
}

exclude_add-Covers_example :
    (u : RuleTable) × (exclude_add granting known rules ten_8 ≡ ret (u, ok))
    × Covers rules u (rule4 10 255)
exclude_add-Covers_example =
    exclude_add-Covers granting known rules ten_8 granting-IsServing rules-IsLaidOut ten-Means

-- The lock is granted, and there is no memory for the copy.
abbrev no_copy : Env
no_copy = record granting { copy = false }

exclude_add-ReturnsOrExits_example :
    ((no_copy.copy ≡ true)
      × ReturnsOrExits
          (λ (u, v). Covers rules u (rule4 10 255) ⊎ ((v ≡ err) × Unchanged rules u))
          (exclude_add no_copy known rules ten_8))
    ⊎ ((no_copy.copy ≡ false)
        × (no_copy.lock ≡ 0)
        × (exclude_add no_copy known rules ten_8 ≡ undefined))
    ⊎ ((no_copy.copy ≡ false)
        × (no_copy.lock ≢ 0)
        × (exclude_add no_copy known rules ten_8 ≡ ret (rules, err)))
exclude_add-ReturnsOrExits_example =
    exclude_add-ReturnsOrExits no_copy known rules ten_8 rules-IsLaidOut ten-Means

exclude_add_zero_prefix_example : exclude_add granting known rules (slash_zero ten) ≡ undefined
unfolding contains equal
exclude_add_zero_prefix_example =
    exclude_add_zero_prefix granting known rules b'1'
      (b'0' ∷ b'.' ∷ b'0' ∷ b'.' ∷ b'0' ∷ b'.' ∷ b'0' ∷ []) granting-IsServing refl rules-IsLaidOut
      refl refl refl

four-IsBytes : (a b c : ℕ) → (a < 256) × (b < 256) × (c < 256) → IsBytes (10 ∷ a ∷ b ∷ c ∷ [])
four-IsBytes a b c (h, k, l) = (omega arith, (h, (k, (l, tt))))

covers-make_rule_ipv4_example :
    (r : ExcludeRecord) × (make_rule (ipv4 (of_memory (10 ∷ 0 ∷ 0 ∷ 0 ∷ []))) 12 ≡ ret r)
    × (covers (ipv4 (of_memory (10 ∷ 1 ∷ 2 ∷ 3 ∷ []))) r
        ≡ same_prefix 12 (10 ∷ 0 ∷ 0 ∷ 0 ∷ []) (10 ∷ 1 ∷ 2 ∷ 3 ∷ []))
covers-make_rule_ipv4_example =
    covers-make_rule_ipv4 (10 ∷ 0 ∷ 0 ∷ 0 ∷ []) (10 ∷ 1 ∷ 2 ∷ 3 ∷ []) 12
      (four-IsBytes 0 0 0 (omega arith)) (four-IsBytes 1 2 3 (omega arith)) refl refl (omega arith)
      (omega arith)

IsBytes-same : (n b : ℕ) → b < 256 → IsBytes (replicate n b)
IsBytes-same zero b h = tt
IsBytes-same (suc n) b h = (h, IsBytes-same n b h)

covers-make_rule_ipv6_example :
    (r : ExcludeRecord) × (make_rule (ipv6 (replicate 16 32)) 61 ≡ ret r)
    × (covers (ipv6 (replicate 16 36)) r ≡ same_prefix 61 (replicate 16 32) (replicate 16 36))
covers-make_rule_ipv6_example =
    covers-make_rule_ipv6 (replicate 16 32) (replicate 16 36) 61 (IsBytes-same 16 32 (omega arith))
      (IsBytes-same 16 36 (omega arith)) refl refl (omega arith)

-- A comment line and an address without a newline.
abbrev exclude_file : Bytes
exclude_file = b'#' ∷ b'x' ∷ b'\n' ∷ ten

read_lines_enough_example :
    (lines : List Bytes) × (joined_lines lines ≡ exclude_file)
    × AreLines lines
    × AreFull lines
    × ((e : Env) (net : Inet) (t : RuleTable)
        → read_lines 11 e net t exclude_file ≡ add_each e net t (texts lines))
read_lines_enough_example = read_lines_enough 11 exclude_file (omega arith)
