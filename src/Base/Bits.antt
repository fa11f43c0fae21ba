-- ===== src/Base/Bits.antt =====
-- `&` on numbers: digit by digit, byte by byte, and with the masks of a byte.
use Prim.Native.Nat.{
  ℕ, zero, suc, ◌+◌, ◌-◌, ◌*◌, ◌/◌, ◌%◌, ◌^◌, ◌≤◌, ◌<◌, min, bit_and, digits, bit_and-bitwise,
}
use mathlib.Core.Path.{◌≡◌, refl, sym, ap₂, ◌∙◌}
use mathlib.Core.Bool.{Bool, true, ◌&&◌}
use native.Mathlib.Nat.{pow-suc}
use native.Mathlib.Omega.{arith}
use agentsmith.Base.Tests.{◌==◌, eq_of_test}

-- A test that holds at every number below a bound.
unfoldable pub every : ℕ → (ℕ → Bool) → Bool
every zero test = true
every (suc bound) test = test bound && every bound test

pub every-test :
    (bound : ℕ) (test : ℕ → Bool) (k : ℕ) → every bound test ≡ true → k < bound → test k ≡ true
unfolding every
every-test zero test k h less = absurd (omega arith)
every-test (suc bound) test k h less = ground (arith, every-test bound test k)

abbrev and_rounds : ℕ → ℕ → ℕ → ℕ
and_rounds rounds x y = digits (λ _. zero) min rounds x y

-- The count of rounds does not matter, if it is enough.
and_rounds_enough : (r s x y : ℕ) → x ≤ r → x ≤ s → and_rounds r x y ≡ and_rounds s x y
and_rounds_enough r s zero y h k = stopped r ∙ sym (stopped s)
  where
    stopped : (t : ℕ) → and_rounds t zero y ≡ 0
    stopped zero = refl
    stopped (suc t) = refl
and_rounds_enough zero s (suc x) y h k = absurd (omega arith)
and_rounds_enough (suc r) zero (suc x) y h k = absurd (omega arith)
and_rounds_enough (suc r) (suc s) (suc x) y h k =
    let half : suc x / 2 ≤ r = omega arith in
    let half' : suc x / 2 ≤ s = omega arith in
    omega (arith, and_rounds_enough r s (suc x / 2) (y / 2) half half')

pub bit_and-halves : (x y : ℕ) → bit_and x y ≡ 2 * bit_and (x / 2) (y / 2) + min (x % 2) (y % 2)
bit_and-halves zero y = omega (arith, bit_and-bitwise 0 y, bit_and-bitwise 0 (y / 2))
bit_and-halves (suc x) y =
    let enough = and_rounds_enough x (suc x / 2) (suc x / 2) (y / 2) (omega arith) (omega arith) in
    omega (arith, enough, bit_and-bitwise (suc x) y, bit_and-bitwise (suc x / 2) (y / 2))

-- Numbers in two parts, the lower of k digits, are joined part by part.
pub bit_and-parts :
    (k a b x y : ℕ)
    → a < 2 ^ k
    → b < 2 ^ k
    → bit_and (a + 2 ^ k * x) (b + 2 ^ k * y) ≡ bit_and a b + 2 ^ k * bit_and x y
bit_and-parts zero a b x y ha hb =
    let a_zero : a ≡ 0 = omega arith in
    let b_zero : b ≡ 0 = omega arith in
    let left : a + 1 * x ≡ x = omega arith in
    let right : b + 1 * y ≡ y = omega arith in
    ap₂ bit_and left right ∙ rw (a_zero, b_zero) (omega arith)
bit_and-parts (suc k) a b x y ha hb =
    let ha' : a < 2 ^ k * 2 = rw pow-suc at ha in
    let hb' : b < 2 ^ k * 2 = rw pow-suc at hb in
    let left : (a + 2 ^ suc k * x) / 2 ≡ a / 2 + 2 ^ k * x = rw pow-suc (omega arith) in
    let right : (b + 2 ^ suc k * y) / 2 ≡ b / 2 + 2 ^ k * y = rw pow-suc (omega arith) in
    let left_digit : (a + 2 ^ suc k * x) % 2 ≡ a % 2 = rw pow-suc (omega arith) in
    let right_digit : (b + 2 ^ suc k * y) % 2 ≡ b % 2 = rw pow-suc (omega arith) in
    let high : 2 ^ suc k * bit_and x y ≡ 2 * (2 ^ k * bit_and x y) = rw pow-suc (omega arith) in
    omega (
      arith,
      bit_and-halves (a + 2 ^ suc k * x) (b + 2 ^ suc k * y),
      ap₂ bit_and left right,
      bit_and-parts k (a / 2) (b / 2) x y (omega arith) (omega arith),
      bit_and-halves a b,
    )

-- The mask of the upper q bits of a byte.
unfoldable pub byte_mask : ℕ → ℕ
byte_mask q = 256 - 2 ^ (8 - q)

masks_test :
    every 9 (λ q. every 256 (λ x. bit_and x (byte_mask q) == x / 2 ^ (8 - q) * 2 ^ (8 - q))) ≡ true
unfolding every byte_mask
masks_test = refl

-- It keeps the upper q bits.
pub bit_and-byte_mask :
    (x q : ℕ) → x < 256 → q ≤ 8 → bit_and x (byte_mask q) ≡ x / 2 ^ (8 - q) * 2 ^ (8 - q)
bit_and-byte_mask x q h k = eq_of_test _ _ (
    every-test 256 (λ x. bit_and x (byte_mask q) == x / 2 ^ (8 - q) * 2 ^ (8 - q)) x
      (every-test 9 (λ q. every 256 (λ x. bit_and x (byte_mask q) == x / 2 ^ (8 - q) * 2 ^ (8 - q)))
        q masks_test (omega arith))
      h)

bit_and-le_enough : (n x y : ℕ) → x ≤ n → bit_and x y ≤ x
bit_and-le_enough n zero y h = omega (arith, bit_and-bitwise 0 y)
bit_and-le_enough zero (suc x) y h = absurd (omega arith)
bit_and-le_enough (suc n) (suc x) y h =
    omega (arith, bit_and-halves (suc x) y, bit_and-le_enough n (suc x / 2) (y / 2) (omega arith))

pub bit_and-le : (x y : ℕ) → bit_and x y ≤ x
bit_and-le x y = bit_and-le_enough x x y (omega arith)
