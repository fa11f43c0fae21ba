-- ===== src/Slots.antt =====
-- The growing vector of pointers that src/records.c and src/exclude.c both keep: a block of slots,
-- NULL or a record, its size, a fill below which every used slot lies, and
-- whether it has been set up.
pub mod Find
pub mod Unique
pub mod Layout
use agentsmith.Base.{
  ℕ, zero, suc, ◌+◌, Bool, true, false, List, [], ◌∷◌, ◌++◌, Option, none, some, ltb, replicate,
  set, if◌then◌else◌,
}
use agentsmith.Base.Outcome.{Outcome, ret, die}

pub record Table {ℓ} (A : Type ℓ) : Type ℓ where
  pub slots : List (Option A)
  pub size : ℕ
  pub fill : ℕ
  pub initialized : Bool

-- The size of the first block, and of what each growth adds.
abbrev pub chunk : ℕ
chunk = 100

module _ {ℓ} {A : Type ℓ} where
  -- `for (i = 0; i < n; i++) if (ptr[i] == NULL) return i;`, from index i on.
  unfoldable pub first_free : List (Option A) → ℕ → ℕ → Option ℕ
  first_free slots i zero = none
  first_free [] i (suc n) = none
  first_free (none ∷ slots) i (suc n) = some i
  first_free (some a ∷ slots) i (suc n) = first_free slots (i + 1) n

  -- The first of the slots i, …, i + n - 1 that holds a record which passes the test.
  unfoldable pub find_slot : (A → Bool) → List (Option A) → ℕ → ℕ → Option (ℕ × A)
  find_slot p slots i zero = none
  find_slot p [] i (suc n) = none
  find_slot p (none ∷ slots) i (suc n) = find_slot p slots (i + 1) n
  find_slot p (some a ∷ slots) i (suc n) =
      let rest = find_slot p slots (i + 1) n in if p a then some (i, a) else rest

  -- `realloc` and `memset`: the block gains a chunk of NULL slots. The first new slot is returned.
  unfoldable pub grow : Bool → Table A → Outcome (Table A × ℕ)
  grow memory t =
      if memory
      then ret (record t { slots = t.slots ++ replicate chunk none; size = t.size + chunk }, t.size)
      else die 3

  -- A free slot, from a grown block if there is none.
  unfoldable pub reserve : Bool → Table A → Outcome (Table A × ℕ)
  unfolding first_free grow
  reserve memory t = elim (first_free t.slots 0 t.size) [
    | some i ↦ ret (t, i)
    | none ↦ grow memory t
  ]

  -- A record is written to slot i, and the fill covers it.
  unfoldable pub store : Table A → ℕ → A → Table A
  store t i a = record t {
    slots = set t.slots i (some a);
    fill = if ltb t.fill (i + 1) then i + 1 else t.fill;
  }

  -- The statics as the program starts.
  unfoldable pub unstarted : Table A
  unstarted = record { slots = []; size = chunk; fill = 0; initialized = false }

  -- `calloc` of a block of the given size.
  unfoldable pub start : Table A → Table A
  start t = record t { slots = replicate t.size none; initialized = true }
