-- ===== src/Exclude/Ipv6.antt =====
-- The IPv6 networks of src/exclude.c: an address lies in a network with prefix p exactly when its
-- first p bits are those of the network.
use agentsmith.Base.{
  ℕ, zero, suc, ◌+◌, ◌-◌, ◌≤◌, true, [], ◌∷◌, ◌≡◌, refl, ap, ◌∙◌, arith, length, equal, equal_iff,
}
use agentsmith.Base.Outcome.{ret}
use agentsmith.Base.Cstring.{Bytes}
use agentsmith.Base.Bits.{every, every-test, byte_mask}
use agentsmith.Wire.Memory.{IsBytes}
use agentsmith.Exclude.Mask.{ipv6_mask, prefix_to_ipv6_mask, ipv6_in_net, in_net_from}
use agentsmith.Exclude.Prefix.{same_prefix, mask_bytes, agree, agree-same_prefix}
use agentsmith.Exclude.Rules.{ExcludeRecord, rule6, ipv6, covers, make_rule}

masks_test : every 129 (λ p. equal (ipv6_mask p) (mask_bytes 16 p)) ≡ true
unfolding every ipv6_mask byte_mask equal
masks_test = refl

-- The mask that the loop fills in, byte by byte.
pub ipv6_mask-mask_bytes : (p : ℕ) → p ≤ 128 → ipv6_mask p ≡ mask_bytes 16 p
ipv6_mask-mask_bytes p h =
    (equal_iff _ _).0
      (every-test 129 (λ p. equal (ipv6_mask p) (mask_bytes 16 p)) p masks_test (omega arith))

in_net_from-tail :
    (n m y : ℕ) (ns ms ys : Bytes) (i k : ℕ)
    → in_net_from (n ∷ ns) (m ∷ ms) (y ∷ ys) (suc i) k ≡ in_net_from ns ms ys i k
unfolding in_net_from
in_net_from-tail n m y ns ms ys i zero = refl
in_net_from-tail n m y ns ms ys i (suc k) =
    let next : suc i + 1 ≡ suc (i + 1) = omega arith in
    rw (next, in_net_from-tail n m y ns ms ys (i + 1) k)

in_net_from-agree :
    (ns ms ys : Bytes) (k : ℕ)
    → length ns ≡ k
    → length ms ≡ k
    → length ys ≡ k
    → in_net_from ns ms ys 0 k ≡ agree ns ms ys
unfolding in_net_from
in_net_from-agree [] ms ys zero a b c = refl
in_net_from-agree [] ms ys (suc k) a b c = absurd (omega arith)
in_net_from-agree (n ∷ ns) ms ys zero a b c = absurd (omega arith)
in_net_from-agree (n ∷ ns) [] ys (suc k) a b c = absurd (omega arith)
in_net_from-agree (n ∷ ns) (m ∷ ms) [] (suc k) a b c = absurd (omega arith)
in_net_from-agree (n ∷ ns) (m ∷ ms) (y ∷ ys) (suc k) a b c =
    let next : 0 + 1 ≡ suc 0 = refl in
    rw (
      in_net_from-tail n m y ns ms ys 0 k,
      in_net_from-agree ns ms ys k (omega arith) (omega arith) (omega arith),
    )

length-mask_bytes : (n p : ℕ) → length (mask_bytes n p) ≡ n
length-mask_bytes zero p = refl
length-mask_bytes (suc n) p = omega (arith, length-mask_bytes n (p - 8))

-- A record that `exclude_add` makes for an IPv6 network of 16 bytes and a prefix p of at most 128 covers
-- an address of 16 bytes exactly when the first p bits of the two are the same.
pub covers-make_rule_ipv6 :
    (net ip : Bytes) (p : ℕ)
    → IsBytes net
    → IsBytes ip
    → length net ≡ 16
    → length ip ≡ 16
    → p ≤ 128
    → (r : ExcludeRecord) × (make_rule (ipv6 net) p ≡ ret r)
      × (covers (ipv6 ip) r ≡ same_prefix p net ip)
unfolding make_rule prefix_to_ipv6_mask covers ipv6_in_net
covers-make_rule_ipv6 net ip p bn bi ln li h = (
  rule6 net (ipv6_mask p),
  ground arith,
  ap (λ m. in_net_from net m ip 0 16) (ipv6_mask-mask_bytes p h)
      ∙ in_net_from-agree net (mask_bytes 16 p) ip 16 ln (length-mask_bytes 16 p) li
      ∙ agree-same_prefix 16 p net ip bn bi ln li,
)
