-- ===== src/Wire/Chunks.antt =====
-- A buffer as a row of chunks of given sizes: what stands at each offset, and back.
use agentsmith.Base.{
  ℕ, zero, suc, ◌+◌, ◌≤◌, List, [], ◌∷◌, ◌++◌, ◌≡◌, refl, sym, ap, ◌∙◌, arith, length, take, drop,
  get_or, length-append, take-append, drop-append_add, take_of_length_le, length-drop, length-take,
  take-append-drop,
}
use agentsmith.Base.Cstring.{Bytes}
use agentsmith.Wire.{memory_at}
use agentsmith.Wire.Memory.{IsBytes}

-- The chunks one behind the other.
abbrev pub flat : List Bytes → Bytes
flat [] = []
flat (c ∷ []) = c
flat (c ∷ d ∷ cs) = c ++ flat (d ∷ cs)

abbrev pub HasSizes : List Bytes → List ℕ → Type 0
HasSizes [] [] = Unit
HasSizes (c ∷ cs) (n ∷ ns) = (length c ≡ n) × HasSizes cs ns
HasSizes [] (n ∷ ns) = ⊥
HasSizes (c ∷ cs) [] = ⊥

-- Where the i-th chunk begins.
abbrev pub offset : List ℕ → ℕ → ℕ
offset ns zero = 0
offset [] (suc i) = 0
offset (n ∷ ns) (suc i) = n + offset ns i

abbrev pub total : List ℕ → ℕ
total [] = 0
total (n ∷ ns) = n + total ns

-- A buffer cut into chunks.
abbrev pub cut : List ℕ → Bytes → List Bytes
cut [] b = []
cut (n ∷ ns) b = take n b ∷ cut ns (drop n b)

pub length-flat : (cs : List Bytes) (ns : List ℕ) → HasSizes cs ns → length (flat cs) ≡ total ns
length-flat [] [] h = refl
length-flat [] (n ∷ ns) h = absurd h
length-flat (c ∷ cs) [] h = absurd h
length-flat (c ∷ []) (n ∷ []) h = omega (arith, h.0)
length-flat (c ∷ []) (n ∷ m ∷ ns) h = absurd h.1
length-flat (c ∷ d ∷ cs) (n ∷ ns) h =
    omega (arith, length-append c (flat (d ∷ cs)), h.0, length-flat (d ∷ cs) ns h.1)

pub memory_at-flat :
    (cs : List Bytes) (ns : List ℕ) (i : ℕ)
    → HasSizes cs ns
    → memory_at (flat cs) (offset ns i) (get_or ns i 0) ≡ get_or cs i []
unfolding memory_at
memory_at-flat [] [] zero h = refl
memory_at-flat [] [] (suc i) h = refl
memory_at-flat [] (n ∷ ns) i h = absurd h
memory_at-flat (c ∷ cs) [] i h = absurd h
memory_at-flat (c ∷ []) (n ∷ ns) zero h = take_of_length_le n c (omega (arith, h.0))
memory_at-flat (c ∷ d ∷ cs) (n ∷ ns) zero h = take-append n c (flat (d ∷ cs)) (sym h.0)
memory_at-flat (c ∷ []) (n ∷ []) (suc i) h = refl
memory_at-flat (c ∷ []) (n ∷ m ∷ ns) (suc i) h = absurd h.1
memory_at-flat (c ∷ d ∷ cs) (n ∷ ns) (suc i) h =
    ap (take (get_or ns i 0)) (drop-append_add n (offset ns i) c (flat (d ∷ cs)) h.0)
    ∙ memory_at-flat (d ∷ cs) ns i h.1

drop-nil : (A : Type 0) (n : ℕ) → drop {A = A} n [] ≡ []
drop-nil A zero = refl
drop-nil A (suc n) = refl

drop_add : {A : Type 0} (m k : ℕ) (xs : List A) → drop (m + k) xs ≡ drop k (drop m xs)
drop_add zero k xs = let e : 0 + k ≡ k = omega arith in rw e
drop_add {A} (suc m) k [] = drop-nil A (suc m + k) ∙ sym (drop-nil A k)
drop_add (suc m) k (x ∷ xs) =
    let e : suc m + k ≡ suc (m + k) = omega arith in rw e (drop_add m k xs)

pub memory_at-cut :
    (b : Bytes) (ns : List ℕ) (i : ℕ)
    → memory_at b (offset ns i) (get_or ns i 0) ≡ get_or (cut ns b) i []
unfolding memory_at
memory_at-cut b [] zero = refl
memory_at-cut b [] (suc i) = refl
memory_at-cut b (n ∷ ns) zero = refl
memory_at-cut b (n ∷ ns) (suc i) =
    ap (take (get_or ns i 0)) (drop_add n (offset ns i) b) ∙ memory_at-cut (drop n b) ns i

pub flat-cut : (b : Bytes) (ns : List ℕ) → length b ≡ total ns → flat (cut ns b) ≡ b
flat-cut [] [] h = refl
flat-cut (x ∷ b) [] h = absurd (omega arith)
flat-cut b (n ∷ []) h = take_of_length_le n b (omega arith)
flat-cut b (n ∷ m ∷ ns) h =
    ap (λ t. take n b ++ t) (flat-cut (drop n b) (m ∷ ns) (omega (arith, length-drop n b)))
    ∙ take-append-drop n b

pub IsBytes-memory_at : (b : Bytes) (pos n : ℕ) → IsBytes b → IsBytes (memory_at b pos n)
unfolding memory_at
IsBytes-memory_at b pos n h = of_take n (drop pos b) (of_drop pos b h)
  where
    of_drop : (n : ℕ) (b : Bytes) → IsBytes b → IsBytes (drop n b)
    of_drop zero b h = h
    of_drop (suc n) [] h = h
    of_drop (suc n) (x ∷ b) h = of_drop n b h.1

    of_take : (n : ℕ) (b : Bytes) → IsBytes b → IsBytes (take n b)
    of_take zero b h = tt
    of_take (suc n) [] h = tt
    of_take (suc n) (x ∷ b) h = (h.0, of_take n b h.1)

pub length-memory_at : (b : Bytes) (pos n : ℕ) → pos + n ≤ length b → length (memory_at b pos n) ≡ n
unfolding memory_at
length-memory_at b pos n h = omega (arith, length-take n (drop pos b), length-drop pos b)
