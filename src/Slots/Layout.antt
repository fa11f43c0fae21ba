-- ===== src/Slots/Layout.antt =====
-- The layout of the vector: its size is the number of its slots and a multiple of the chunk, and
-- every slot from the fill on is NULL. Searching, growing and storing keep it.
use agentsmith.Base.{
  ap, ℕ, zero, suc, ◌+◌, ◌%◌, ◌≤◌, ◌<◌, Bool, true, false, List, [], ◌∷◌, ◌++◌, Option, none, some,
  ◌≡◌, refl, ◌∙◌, inl, inr, arith, Option-cases, Bool-cases, ◌⊎◌, length, get_elem?, set, replicate,
  length-set, length-append, length-replicate,
}
use agentsmith.Base.Outcome.{ret, die}
use agentsmith.Slots.{Table, chunk, first_free, grow, reserve, store, start}
use agentsmith.Slots.Find.{find, EmptyFrom, first_free-eq-some}
use agentsmith.Slots.Unique.{IsUnique}

module _ {ℓ} {A : Type ℓ} where
  pub record IsLaidOut (t : Table A) : Type ℓ where
    pub sized : length t.slots ≡ t.size
    pub filled : t.fill ≤ t.size
    pub chunked : t.size % chunk ≡ 0
    pub nonempty : 0 < t.size
    pub empty : EmptyFrom t.fill t.slots
    pub started : t.initialized ≡ true

  pub EmptyFrom-mono :
      (m n : ℕ) (slots : List (Option A)) → m ≤ n → EmptyFrom m slots → EmptyFrom n slots
  EmptyFrom-mono m n [] h e = tt
  EmptyFrom-mono zero zero (x ∷ slots) h e = e
  EmptyFrom-mono zero (suc n) (x ∷ slots) h e = EmptyFrom-mono zero n slots (omega arith) e.1
  EmptyFrom-mono (suc m) zero (x ∷ slots) h e = absurd (omega arith)
  EmptyFrom-mono (suc m) (suc n) (x ∷ slots) h e = EmptyFrom-mono m n slots (omega arith) e

  pub EmptyFrom-set :
      (n i : ℕ) (slots : List (Option A)) (x : Option A)
      → i < n
      → EmptyFrom n slots
      → EmptyFrom n (set slots i x)
  EmptyFrom-set n i [] x h e = tt
  EmptyFrom-set zero i (y ∷ slots) x h e = absurd (omega arith)
  EmptyFrom-set (suc n) zero (y ∷ slots) x h e = e
  EmptyFrom-set (suc n) (suc i) (y ∷ slots) x h e = EmptyFrom-set n i slots x (omega arith) e

  EmptyFrom-replicate : (xs : List (Option A)) (m n : ℕ) → xs ≡ replicate n none → EmptyFrom m xs
  EmptyFrom-replicate [] m n e = tt
  EmptyFrom-replicate (x ∷ xs) m zero e = cc
  EmptyFrom-replicate (x ∷ xs) zero (suc n) e =
      (ground arith, EmptyFrom-replicate xs zero n (ground arith))
  EmptyFrom-replicate (x ∷ xs) (suc m) (suc n) e = EmptyFrom-replicate xs m n (ground arith)

  EmptyFrom-append_none :
      (m n : ℕ) (slots : List (Option A))
      → EmptyFrom m slots
      → EmptyFrom m (slots ++ replicate n none)
  EmptyFrom-append_none m n [] e = EmptyFrom-replicate (replicate n none) m n refl
  EmptyFrom-append_none zero n (x ∷ slots) e = (e.0, EmptyFrom-append_none zero n slots e.1)
  EmptyFrom-append_none (suc m) n (x ∷ slots) e = EmptyFrom-append_none m n slots e

  find-replicate : (p : A → Bool) (n : ℕ) → find p (replicate n none) ≡ none
  find-replicate p zero = refl
  find-replicate p (suc n) = find-replicate p n

  pub find-append_none :
      (p : A → Bool) (slots : List (Option A)) (n : ℕ)
      → find p (slots ++ replicate n none) ≡ find p slots
  find-append_none p [] n = find-replicate p n
  find-append_none p (none ∷ slots) n = find-append_none p slots n
  find-append_none p (some a ∷ slots) n = ground (arith, find-append_none p slots n)

  pub IsUnique-replicate : (key : A → List ℕ) (n : ℕ) → IsUnique key (replicate n none)
  IsUnique-replicate key zero = tt
  IsUnique-replicate key (suc n) = IsUnique-replicate key n

  IsUnique-append_none :
      (key : A → List ℕ) (slots : List (Option A)) (n : ℕ)
      → IsUnique key slots
      → IsUnique key (slots ++ replicate n none)
  IsUnique-append_none key [] n u = IsUnique-replicate key n
  IsUnique-append_none key (none ∷ slots) n u = IsUnique-append_none key slots n u
  IsUnique-append_none key (some a ∷ slots) n u =
      (find-append_none _ slots n ∙ u.0, IsUnique-append_none key slots n u.1)

  get_elem?-append_none :
      (slots : List (Option A)) (n : ℕ)
      → get_elem? (slots ++ replicate (suc n) none) (length slots) ≡ some none
  get_elem?-append_none [] n = refl
  get_elem?-append_none (x ∷ slots) n = get_elem?-append_none slots n

  -- The block keeps what it holds.
  pub record Keeps (t u : Table A) : Type ℓ where
    pub laid_out : IsLaidOut u
    pub same_find : (p : A → Bool) → find p u.slots ≡ find p t.slots
    pub same_unique : (key : A → List ℕ) → IsUnique key t.slots → IsUnique key u.slots

  grown-Keeps :
      (t : Table A)
      → IsLaidOut t
      → Keeps t (record t { slots = t.slots ++ replicate chunk none; size = t.size + chunk })
  grown-Keeps t v = record {
    laid_out = record {
      sized = omega (
        arith,
        length-append t.slots (replicate chunk none),
        length-replicate {A = Option A} chunk none,
        v.sized,
      );
      filled = omega (arith, v.filled);
      chunked = omega (arith, v.chunked);
      nonempty = omega (arith, v.nonempty);
      empty = EmptyFrom-append_none t.fill chunk t.slots v.empty;
      started = v.started;
    };
    same_find = λ p. find-append_none p t.slots chunk;
    same_unique = λ key u. IsUnique-append_none key t.slots chunk u;
  }

  -- A NULL slot in range is at hand, and no record is lost.
  pub record Reserved (t u : Table A) (i : ℕ) : Type ℓ where
    pub keeps : Keeps t u
    pub free : get_elem? u.slots i ≡ some none
    pub in_range : i < u.size

  -- What `reserve` comes to: a slot, or `exit(3)` when the block is full and `realloc` fails.
  pub reserve_cases :
      (memory : Bool) (t : Table A)
      → IsLaidOut t
      → ((u : Table A) × (i : ℕ) × (reserve memory t ≡ ret (u, i)) × Reserved t u i)
        ⊎ ((reserve memory t ≡ die 3) × (memory ≡ false))
  unfolding reserve grow
  reserve_cases memory t v = elim (Option-cases (first_free t.slots 0 t.size)) [
    | inr (i, e) ↦
        let (k, ei, l, g) = first_free-eq-some t.slots 0 t.size e in
        inl (
          t,
          i,
          rw (e, reserve),
          record {
            keeps = record { laid_out = v; same_find = λ p. refl; same_unique = λ key u. u };
            free = let same : k ≡ i = omega arith in rw same at g;
            in_range = omega arith;
          },
        )
    | inl e ↦ elim (Bool-cases memory) [
      | inr m ↦ inr (rw (e, reserve, m), m)
      | inl m ↦ inl (
        record t { slots = t.slots ++ replicate chunk none; size = t.size + chunk },
        t.size,
        rw (e, reserve, m),
        record {
          keeps = grown-Keeps t v;
          free = rw (← v.sized) (get_elem?-append_none t.slots 99);
          in_range = omega arith;
        },
      )
    ]
  ]

  store-empty :
      (t : Table A) (i : ℕ) (a : A) (n : ℕ)
      → t.fill ≤ n
      → i < n
      → EmptyFrom t.fill t.slots
      → EmptyFrom n (set t.slots i (some a))
  store-empty t i a n h b e =
      EmptyFrom-set n i t.slots (some a) b (EmptyFrom-mono t.fill n t.slots h e)

  pub store-IsLaidOut :
      (t : Table A) (i : ℕ) (a : A) → IsLaidOut t → i < t.size → IsLaidOut (store t i a)
  unfolding store
  store-IsLaidOut t i a v h = record {
    sized = ground (arith, length-set t.slots i (some a), v.sized);
    filled = ground (arith, v.filled);
    chunked = v.chunked;
    nonempty = v.nonempty;
    empty = store-empty t i a _ (ground arith) (ground arith) v.empty;
    started = v.started;
  }

  -- A write below the fill keeps the layout.
  pub put-IsLaidOut :
      (t : Table A) (i : ℕ) (x : Option A)
      → IsLaidOut t
      → i < t.fill
      → IsLaidOut (record t { slots = set t.slots i x })
  put-IsLaidOut t i x v h = record {
    sized = omega (arith, length-set t.slots i x, v.sized);
    filled = v.filled;
    chunked = v.chunked;
    nonempty = v.nonempty;
    empty = EmptyFrom-set t.fill i t.slots x h v.empty;
    started = v.started;
  }

  -- A block of the first size, with nothing in it.
  pub start-IsLaidOut : (t : Table A) → t.size ≡ chunk → t.fill ≡ 0 → IsLaidOut (start t)
  unfolding start
  start-IsLaidOut t s f = record {
    sized = omega (arith, length-replicate {A = Option A} t.size none);
    filled = omega arith;
    chunked = ap (λ n. n % chunk) s;
    nonempty = omega arith;
    empty = EmptyFrom-replicate _ t.fill t.size refl;
    started = refl;
  }
