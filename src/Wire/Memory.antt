-- ===== src/Wire/Memory.antt =====
-- Integers and their bytes in memory; changing the byte order twice changes nothing.
use agentsmith.Base.{
  ℕ, zero, suc, ◌+◌, ◌*◌, ◌/◌, ◌%◌, ◌^◌, ◌<◌, [], ◌∷◌, ◌++◌, ◌≡◌, refl, ap, ◌∙◌, arith, length,
  length-append,
}
use native.Mathlib.Nat.{pow-suc}
use mathlib.Core.List.{reverse, reverse-reverse, reverse-append}
use agentsmith.Base.Cstring.{Bytes}
use agentsmith.Wire.{to_memory, of_memory, htonll, ntohll, htonl, ntohl}

-- Every element is a byte.
abbrev pub IsBytes : Bytes → Type 0
IsBytes [] = Unit
IsBytes (b ∷ bs) = (b < 256) × IsBytes bs

pub length-to_memory : (n x : ℕ) → length (to_memory n x) ≡ n
unfolding to_memory
length-to_memory zero x = refl
length-to_memory (suc n) x = ap suc (length-to_memory n (x / 256))

pub to_memory-IsBytes : (n x : ℕ) → IsBytes (to_memory n x)
unfolding to_memory
to_memory-IsBytes zero x = tt
to_memory-IsBytes (suc n) x = (omega arith, to_memory-IsBytes n (x / 256))

pub of_memory-to_memory : (n x : ℕ) → x < 256 ^ n → of_memory (to_memory n x) ≡ x
unfolding to_memory of_memory
of_memory-to_memory zero x h = omega arith
of_memory-to_memory (suc n) x h =
    let h' : x < 256 ^ n * 256 = rw pow-suc at h in
    omega (arith, of_memory-to_memory n (x / 256) (omega arith))

pub to_memory-of_memory :
    (bs : Bytes) (n : ℕ) → IsBytes bs → length bs ≡ n → to_memory n (of_memory bs) ≡ bs
unfolding to_memory of_memory
to_memory-of_memory [] zero b h = refl
to_memory-of_memory [] (suc n) b h = absurd (omega arith)
to_memory-of_memory (x ∷ bs) zero b h = absurd (omega arith)
to_memory-of_memory (x ∷ bs) (suc n) b h =
    let low : (x + 256 * of_memory bs) % 256 ≡ x = omega (arith, b.0) in
    let high : (x + 256 * of_memory bs) / 256 ≡ of_memory bs = omega (arith, b.0) in
    rw (low, high, to_memory-of_memory bs n b.1 (omega arith))

IsBytes-append : (xs ys : Bytes) → IsBytes xs → IsBytes ys → IsBytes (xs ++ ys)
IsBytes-append [] ys a b = b
IsBytes-append (x ∷ xs) ys a b = (a.0, IsBytes-append xs ys a.1 b)

pub IsBytes-reverse : (xs : Bytes) → IsBytes xs → IsBytes (reverse xs)
IsBytes-reverse [] b = b
IsBytes-reverse (x ∷ xs) b =
    rw (reverse-append (x ∷ []) xs)
      (IsBytes-append (reverse xs) (x ∷ []) (IsBytes-reverse xs b.1) (b.0, tt))

pub length-reverse : (xs : Bytes) → length (reverse xs) ≡ length xs
length-reverse [] = refl
length-reverse (x ∷ xs) =
    rw (reverse-append (x ∷ []) xs)
      (omega (arith, length-append (reverse xs) (x ∷ []), length-reverse xs))

pub of_memory-lt : (bs : Bytes) (n : ℕ) → IsBytes bs → length bs ≡ n → of_memory bs < 256 ^ n
unfolding of_memory
of_memory-lt [] zero b h = omega arith
of_memory-lt [] (suc n) b h = absurd (omega arith)
of_memory-lt (x ∷ bs) zero b h = absurd (omega arith)
of_memory-lt (x ∷ bs) (suc n) b h =
    rw pow-suc (omega (arith, b.0, of_memory-lt bs n b.1 (omega arith)))

-- The integer of the n bytes of x in reverse: the change of byte order.
pub network : ℕ → ℕ → ℕ
network n x = of_memory (reverse (to_memory n x))

pub to_memory-network : (n x : ℕ) → to_memory n (network n x) ≡ reverse (to_memory n x)
unfolding network
to_memory-network n x =
    to_memory-of_memory (reverse (to_memory n x)) n
      (IsBytes-reverse (to_memory n x) (to_memory-IsBytes n x))
      (length-reverse (to_memory n x) ∙ length-to_memory n x)

pub network-network : (n x : ℕ) → x < 256 ^ n → network n (network n x) ≡ x
unfolding network
network-network n x h =
    ap (λ bs. of_memory (reverse bs)) (to_memory-network n x)
    ∙ ap of_memory (reverse-reverse (to_memory n x))
    ∙ of_memory-to_memory n x h

pub network-lt : (n x : ℕ) → network n x < 256 ^ n
unfolding network
network-lt n x =
    of_memory-lt (reverse (to_memory n x)) n
      (IsBytes-reverse (to_memory n x) (to_memory-IsBytes n x))
      (length-reverse (to_memory n x) ∙ length-to_memory n x)

-- An integer that is written in network order is read back.
pub network_round_trip :
    (n x : ℕ) → x < 256 ^ n → network n (of_memory (to_memory n (network n x))) ≡ x
network_round_trip n x h =
    ap (network n) (of_memory-to_memory n (network n x) (network-lt n x)) ∙ network-network n x h

-- Bytes that are read in network order are written back.
pub network_round_trip_back :
    (n : ℕ) (bs : Bytes)
    → IsBytes bs
    → length bs ≡ n
    → to_memory n (network n (network n (of_memory bs))) ≡ bs
network_round_trip_back n bs b h =
    ap (to_memory n) (network-network n (of_memory bs) (of_memory-lt bs n b h))
    ∙ to_memory-of_memory bs n b h

pub htonll-network : (x : ℕ) → htonll x ≡ network 8 x
unfolding htonll network
htonll-network x = refl

pub ntohll-network : (x : ℕ) → ntohll x ≡ network 8 x
unfolding ntohll network
ntohll-network x = refl

pub htonl-network : (x : ℕ) → htonl x ≡ network 4 x
unfolding htonl network
htonl-network x = refl

pub ntohl-network : (x : ℕ) → ntohl x ≡ network 4 x
unfolding ntohl network
ntohl-network x = refl

-- Sent with `htonll` and read with `ntohll`, a 64-bit integer is unchanged.
pub long_round_trip : (x : ℕ) → x < 2 ^ 64 → ntohll (of_memory (to_memory 8 (htonll x))) ≡ x
long_round_trip x h = rw (ntohll-network, htonll-network) (network_round_trip 8 x h)

-- The same of `htonl` and `ntohl`, and 32 bits.
pub int_round_trip : (x : ℕ) → x < 2 ^ 32 → ntohl (of_memory (to_memory 4 (htonl x))) ≡ x
int_round_trip x h = rw (ntohl-network, htonl-network) (network_round_trip 4 x h)

pub long_round_trip_back :
    (bs : Bytes) → IsBytes bs → length bs ≡ 8 → to_memory 8 (htonll (ntohll (of_memory bs))) ≡ bs
long_round_trip_back bs b h = rw (ntohll-network, htonll-network) (network_round_trip_back 8 bs b h)

pub int_round_trip_back :
    (bs : Bytes) → IsBytes bs → length bs ≡ 4 → to_memory 4 (htonl (ntohl (of_memory bs))) ≡ bs
int_round_trip_back bs b h = rw (ntohl-network, htonl-network) (network_round_trip_back 4 bs b h)
