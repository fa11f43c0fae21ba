-- ===== src/Exclude/Prefix.antt =====
-- What the masks of src/exclude.c mean: two addresses agree under the mask of a prefix if and only if
-- their first bits do.
use Prim.Native.Nat.{bit_and}
use native.Mathlib.Nat.{mul-div_cancel, one-le-pow}
use agentsmith.Base.{
  ℕ, zero, suc, ◌-◌, ◌*◌, ◌/◌, ◌^◌, ◌≤◌, ◌<◌, Bool, true, false, ◌&&◌, [], ◌∷◌, ◌==◌, leb, ◌≡◌, ◌≢◌,
  refl, sym, ap, ap₂, ◌∙◌, inl, inr, arith, if◌then◌else◌, Bool-cases, eq_of_test, ne_of_test,
  length,
}
use agentsmith.Base.Cstring.{Bytes}
use agentsmith.Base.Bits.{byte_mask, bit_and-byte_mask}
use agentsmith.Wire.Memory.{IsBytes}

-- The first p bits of two addresses are the same.
abbrev pub same_prefix : ℕ → Bytes → Bytes → Bool
same_prefix p [] ys = true
same_prefix p (x ∷ xs) [] = true
same_prefix p (x ∷ xs) (y ∷ ys) =
    if leb 8 p then x == y && same_prefix (p - 8) xs ys else x / 2 ^ (8 - p) == y / 2 ^ (8 - p)

-- The n bytes of the mask of p bits.
abbrev pub mask_bytes : ℕ → ℕ → Bytes
mask_bytes zero p = []
mask_bytes (suc n) p = (if leb 8 p then byte_mask 8 else byte_mask p) ∷ mask_bytes n (p - 8)

-- The bytes agree under a mask.
abbrev pub agree : Bytes → Bytes → Bytes → Bool
agree [] ms ys = true
agree (x ∷ xs) [] ys = true
agree (x ∷ xs) (m ∷ ms) [] = true
agree (x ∷ xs) (m ∷ ms) (y ∷ ys) = if bit_and x m == bit_and y m then agree xs ms ys else false

test_refl : (a : ℕ) → (a == a) ≡ true
test_refl a = ground arith

test_false : (a b : ℕ) → a ≢ b → (a == b) ≡ false
test_false a b h = ground arith

test-mul : (u v c : ℕ) → 0 < c → (u * c == v * c) ≡ (u == v)
test-mul u v c h = elim (Bool-cases (u == v)) [
  | inl e ↦ rw (eq_of_test u v e, test_refl (v * c), test_refl v)
  | inr ne ↦ rw (
    ne,
    test_false (u * c) (v * c) (λ e.
        ne_of_test u v ne (sym (mul-div_cancel u h) ∙ ap (λ t. t / c) e ∙ mul-div_cancel v h)),
  )
]

-- Two bytes under the mask of q bits.
byte-agree :
    (x y q : ℕ)
    → x < 256
    → y < 256
    → q ≤ 8
    → (bit_and x (byte_mask q) == bit_and y (byte_mask q)) ≡ (x / 2 ^ (8 - q) == y / 2 ^ (8 - q))
byte-agree x y q hx hy hq =
    ap₂ (λ a b. a == b) (bit_and-byte_mask x q hx hq) (bit_and-byte_mask y q hy hq)
    ∙ test-mul (x / 2 ^ (8 - q)) (y / 2 ^ (8 - q)) (2 ^ (8 - q)) (one-le-pow _ 2 (omega arith))

agree-zero : (n : ℕ) (xs ys : Bytes) → IsBytes xs → IsBytes ys → agree xs (mask_bytes n 0) ys ≡ true
agree-zero zero [] ys bx by = refl
agree-zero zero (x ∷ xs) ys bx by = refl
agree-zero (suc n) [] ys bx by = refl
agree-zero (suc n) (x ∷ xs) [] bx by = refl
agree-zero (suc n) (x ∷ xs) (y ∷ ys) bx by =
    let nothing : x / 256 ≡ 0 = omega (arith, bx.0) in
    let nothing' : y / 256 ≡ 0 = omega (arith, by.0) in
    rw (byte-agree x y 0 bx.0 by.0 (omega arith), nothing, nothing') (agree-zero n xs ys bx.1 by.1)

if-and : (b c : Bool) → (if b then c else false) ≡ (b && c)
if-and true c = refl
if-and false c = refl

if_self : (b : Bool) → (if b then true else false) ≡ b
if_self true = refl
if_self false = refl

-- Under the mask of p bits, the addresses agree exactly when their first p bits are the same.
pub agree-same_prefix :
    (n p : ℕ) (xs ys : Bytes)
    → IsBytes xs
    → IsBytes ys
    → length xs ≡ n
    → length ys ≡ n
    → agree xs (mask_bytes n p) ys ≡ same_prefix p xs ys
agree-same_prefix n p [] ys bx by hx hy = refl
agree-same_prefix n p (x ∷ xs) [] bx by hx hy = absurd (omega arith)
agree-same_prefix zero p (x ∷ xs) (y ∷ ys) bx by hx hy = absurd (omega arith)
agree-same_prefix (suc n) p (x ∷ xs) (y ∷ ys) bx by hx hy = elim (Bool-cases (leb 8 p)) [
  | inl e ↦
      let whole : x / 1 ≡ x = omega arith in
      let whole' : y / 1 ≡ y = omega arith in
      rw e (
        ap₂ (λ b rest. if b then rest else false)
          (byte-agree x y 8 bx.0 by.0 (omega arith) ∙ ap₂ (λ u v. u == v) whole whole')
          (agree-same_prefix n (p - 8) xs ys bx.1 by.1 (omega arith) (omega arith))
        ∙ if-and (x == y) _)
  | inr e ↦
      let few : p < 8 = ground arith in
      let none_left : p - 8 ≡ 0 = omega arith in
      rw e (
        ap₂ (λ b rest. if b then rest else false) (byte-agree x y p bx.0 by.0 (omega arith))
          (ap (λ q. agree xs (mask_bytes n q) ys) none_left ∙ agree-zero n xs ys bx.1 by.1)
        ∙ if_self _)
]
