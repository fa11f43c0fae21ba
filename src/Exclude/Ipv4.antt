-- ===== src/Exclude/Ipv4.antt =====
-- The IPv4 networks of src/exclude.c: an address lies in a network with prefix p exactly when its
-- first p bits are those of the network. The integers hold the bytes of an address in memory order.
use Prim.Native.Nat.{bit_and}
use native.Mathlib.Nat.{one-le-pow}
use agentsmith.Base.{
  ℕ, zero, suc, ◌+◌, ◌-◌, ◌*◌, ◌%◌, ◌^◌, ◌≤◌, ◌<◌, true, false, [], ◌∷◌, ◌==◌, leb, ◌≡◌, ◌≢◌, refl,
  ap, ap₂, ◌∙◌, inl, inr, arith, if◌then◌else◌, Bool-cases, eq_of_test, ne_of_test, length,
}
use agentsmith.Base.Outcome.{ret}
use agentsmith.Base.Cstring.{Bytes}
use agentsmith.Base.Bits.{every, every-test, byte_mask, bit_and-parts, bit_and-le}
use agentsmith.Wire.{htonl, of_memory}
use agentsmith.Wire.Memory.{IsBytes}
use agentsmith.Exclude.Mask.{ipv4_mask, shift_mask, ipv4_in_net}
use agentsmith.Exclude.Prefix.{same_prefix, mask_bytes, agree, agree-same_prefix}
use agentsmith.Exclude.Rules.{ExcludeRecord, rule4, ipv4, covers, make_rule}

abbrev mask4 : ℕ → ℕ
mask4 p = htonl (0xffff_ffff * 2 ^ (32 - p) % 2 ^ 32)

masks_test : every 33 (λ p. mask4 p == of_memory (mask_bytes 4 p)) ≡ true
unfolding every byte_mask htonl of_memory
masks_test = refl

mask4-mask_bytes : (p : ℕ) → p ≤ 32 → mask4 p ≡ of_memory (mask_bytes 4 p)
mask4-mask_bytes p h =
    eq_of_test _ _
      (every-test 33 (λ p. mask4 p == of_memory (mask_bytes 4 p)) p masks_test (omega arith))

test-parts :
    (u v a b : ℕ)
    → u < 256
    → v < 256
    → (u + 256 * a == v + 256 * b) ≡ (if u == v then a == b else false)
test-parts u v a b hu hv = elim (Bool-cases (u == v)) [
  | inl e ↦ rw e (elim (Bool-cases (a == b)) [
    | inl f ↦ rw f (test_true _ _ (omega (arith, eq_of_test u v e, eq_of_test a b f)))
    | inr f ↦ rw f (test_false _ _ (λ h. ne_of_test a b f (omega (arith, eq_of_test u v e))))
  ])
  | inr e ↦ rw e (test_false _ _ (λ h. ne_of_test u v e (omega arith)))
]
  where
    test_true : (x y : ℕ) → x ≡ y → (x == y) ≡ true
    test_true x y h = ground arith

    test_false : (x y : ℕ) → x ≢ y → (x == y) ≡ false
    test_false x y h = ground arith

bit_and-of_memory :
    (x m : ℕ) (xs ms : Bytes)
    → x < 256
    → m < 256
    → bit_and (of_memory (x ∷ xs)) (of_memory (m ∷ ms))
      ≡ bit_and x m + 256 * bit_and (of_memory xs) (of_memory ms)
unfolding of_memory
bit_and-of_memory x m xs ms hx hm = bit_and-parts 8 x m (of_memory xs) (of_memory ms) hx hm

-- Comparing the integers under the mask compares their bytes.
of_memory-agree :
    (xs ms ys : Bytes) (n : ℕ)
    → IsBytes xs
    → IsBytes ms
    → IsBytes ys
    → length xs ≡ n
    → length ms ≡ n
    → length ys ≡ n
    → (bit_and (of_memory xs) (of_memory ms) == bit_and (of_memory ys) (of_memory ms))
      ≡ agree xs ms ys
of_memory-agree [] [] [] zero bx bm by a b c = unfold of_memory in refl
of_memory-agree [] (m ∷ ms) ys zero bx bm by a b c = absurd (omega arith)
of_memory-agree [] [] (y ∷ ys) zero bx bm by a b c = absurd (omega arith)
of_memory-agree (x ∷ xs) ms ys zero bx bm by a b c = absurd (omega arith)
of_memory-agree [] ms ys (suc n) bx bm by a b c = absurd (omega arith)
of_memory-agree (x ∷ xs) [] ys (suc n) bx bm by a b c = absurd (omega arith)
of_memory-agree (x ∷ xs) (m ∷ ms) [] (suc n) bx bm by a b c = absurd (omega arith)
of_memory-agree (x ∷ xs) (m ∷ ms) (y ∷ ys) (suc n) bx bm by a b c =
    ap₂ (λ u v. u == v) (bit_and-of_memory x m xs ms bx.0 bm.0)
      (bit_and-of_memory y m ys ms by.0 bm.0)
    ∙ test-parts (bit_and x m) (bit_and y m) _ _ (omega (arith, bit_and-le x m, bx.0))
        (omega (arith, bit_and-le y m, by.0))
    ∙ ap (λ rest. if bit_and x m == bit_and y m then rest else false)
        (of_memory-agree xs ms ys n bx.1 bm.1 by.1 (omega arith) (omega arith) (omega arith))

mask_bytes-IsBytes : (n p : ℕ) → IsBytes (mask_bytes n p)
unfolding byte_mask
mask_bytes-IsBytes zero p = tt
mask_bytes-IsBytes (suc n) p = (first_byte, mask_bytes-IsBytes n (p - 8))
  where
    first_byte : (if leb 8 p then byte_mask 8 else byte_mask p) < 256
    first_byte = elim (Bool-cases (leb 8 p)) [
      | inl e ↦ rw e (omega arith)
      | inr e ↦ rw e (omega (arith, one-le-pow (8 - p) 2 (omega arith)))
    ]

length-mask_bytes : (n p : ℕ) → length (mask_bytes n p) ≡ n
length-mask_bytes zero p = refl
length-mask_bytes (suc n) p = omega (arith, length-mask_bytes n (p - 8))

-- A record that `exclude_add` makes for an IPv4 network, of which the four bytes are given, and a prefix
-- p from 1 to 32 covers an address exactly when the first p bits of the two are the same.
pub covers-make_rule_ipv4 :
    (net ip : Bytes) (p : ℕ)
    → IsBytes net
    → IsBytes ip
    → length net ≡ 4
    → length ip ≡ 4
    → 0 < p
    → p ≤ 32
    → (r : ExcludeRecord) × (make_rule (ipv4 (of_memory net)) p ≡ ret r)
      × (covers (ipv4 (of_memory ip)) r ≡ same_prefix p net ip)
unfolding make_rule ipv4_mask shift_mask covers ipv4_in_net
covers-make_rule_ipv4 net ip p bn bi ln li lo hi = (
  rule4 (of_memory net) (mask4 p),
  ground arith,
  ap (λ m. bit_and (of_memory net) m == bit_and (of_memory ip) m) (mask4-mask_bytes p hi)
      ∙ of_memory-agree net (mask_bytes 4 p) ip 4 bn (mask_bytes-IsBytes 4 p) bi ln
          (length-mask_bytes 4 p) li
      ∙ agree-same_prefix 4 p net ip bn bi ln li,
)
