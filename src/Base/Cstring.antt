-- ===== src/Base/Cstring.antt =====
-- Arrays of `char` as lists of bytes, and the functions of string.h that the program calls.
use Prim.Native.Nat.{ℕ, zero, suc, ◌<◌}
use mathlib.Core.Bool.{Bool}
use mathlib.Core.Path.{◌≡◌, refl, ap}
use mathlib.Core.Logic.{◌≢◌}
use mathlib.Core.List.{List, [], ◌∷◌}
use native.Mathlib.Omega.{arith}
use agentsmith.Base.Lists.{length, set, take}
use agentsmith.Base.Tests.{◌==◌, if◌then◌else◌, equal}

abbrev pub Bytes : Type 0
Bytes = List ℕ

-- The string that an array holds: the bytes before the first NUL.
unfoldable pub c_str : Bytes → Bytes
c_str [] = []
c_str (c ∷ cs) = if c == 0 then [] else c ∷ c_str cs

-- `strcmp(a, b) == 0`
abbrev pub same_str : Bytes → Bytes → Bool
same_str a b = equal (c_str a) (c_str b)

-- `strncpy(dst, src, n)` on an array of n bytes: the string, cut at n bytes, then NULs.
unfoldable pub strncpy : ℕ → Bytes → Bytes
strncpy zero src = []
strncpy (suc n) [] = 0 ∷ strncpy n []
strncpy (suc n) (c ∷ cs) = if c == 0 then 0 ∷ strncpy n [] else c ∷ strncpy n cs

-- A string with no NUL in it.
pub data IsString : Bytes → Type 0 where
  nil : IsString []
  cons : {c : ℕ} {cs : Bytes} → c ≢ 0 → IsString cs → IsString (c ∷ cs)

pub c_str-strncpy : {s : Bytes} (n : ℕ) → IsString s → length s < n → c_str (strncpy n s) ≡ s
unfolding c_str strncpy
c_str-strncpy zero h k = absurd (omega arith)
c_str-strncpy (suc n) nil k = refl
c_str-strncpy (suc n) (cons {c} {cs} ne h) k = ground (arith, c_str-strncpy {s = cs} n h)

pub c_str-IsString : {s : Bytes} → IsString s → c_str s ≡ s
unfolding c_str
c_str-IsString nil = refl
c_str-IsString (cons {c} {cs} ne h) = ground (arith, c_str-IsString {s = cs} h)

pub length-strncpy : (n : ℕ) (s : Bytes) → length (strncpy n s) ≡ n
unfolding strncpy
length-strncpy zero s = refl
length-strncpy (suc n) [] = ap suc (length-strncpy n [])
length-strncpy (suc n) (c ∷ cs) = ground (arith, length-strncpy n [], length-strncpy n cs)

pub c_str-c_str : (s : Bytes) → c_str (c_str s) ≡ c_str s
unfolding c_str
c_str-c_str [] = refl
c_str-c_str (c ∷ cs) = ground (arith, c_str-c_str cs)

-- An array filled by `strncpy` and closed by a NUL in its last byte holds the string, cut to fit.
pub c_str-closed : (m : ℕ) (s : Bytes) → c_str (set (strncpy (suc m) s) m 0) ≡ take m (c_str s)
unfolding c_str strncpy
c_str-closed zero [] = refl
c_str-closed zero (c ∷ cs) = ground arith
c_str-closed (suc m) [] = refl
c_str-closed (suc m) (c ∷ cs) = ground (arith, c_str-closed m cs)
