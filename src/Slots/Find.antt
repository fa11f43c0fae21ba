-- ===== src/Slots/Find.antt =====
-- The search through the vector of src/records.c and src/exclude.c, against the search of a whole list.
use agentsmith.Base.{
  ℕ, zero, suc, ◌+◌, ◌<◌, Bool, true, List, [], ◌∷◌, Option, none, some, ◌≡◌, refl, sym, inl, inr,
  arith, Bool-cases, get_elem?, if◌then◌else◌,
}
use agentsmith.Slots.{find_slot, first_free}

module _ {ℓ} {A : Type ℓ} where
  -- The first record of a list of slots that passes the test.
  abbrev pub find : (A → Bool) → List (Option A) → Option A
  find p [] = none
  find p (none ∷ slots) = find p slots
  find p (some a ∷ slots) = if p a then some a else find p slots

  -- All slots from the n-th on are NULL.
  abbrev pub EmptyFrom : ℕ → List (Option A) → Type ℓ
  EmptyFrom n [] = Unit
  EmptyFrom zero (x ∷ slots) = (x ≡ none) × EmptyFrom zero slots
  EmptyFrom (suc n) (x ∷ slots) = EmptyFrom n slots

  abbrev pub record_of : Option (ℕ × A) → Option A
  record_of none = none
  record_of (some (i, a)) = some a

  pub find-EmptyFrom_zero :
      (p : A → Bool) (slots : List (Option A)) → EmptyFrom zero slots → find p slots ≡ none
  find-EmptyFrom_zero p [] h = refl
  find-EmptyFrom_zero p (none ∷ slots) h = find-EmptyFrom_zero p slots h.1
  find-EmptyFrom_zero p (some a ∷ slots) h = cc (h.0)

  -- A search below the fill finds what a search of the whole block does.
  pub find_slot-find :
      (p : A → Bool) (slots : List (Option A)) (i n : ℕ)
      → EmptyFrom n slots
      → record_of (find_slot p slots i n) ≡ find p slots
  unfolding find_slot
  find_slot-find p [] i zero h = refl
  find_slot-find p [] i (suc n) h = refl
  find_slot-find p (none ∷ slots) i zero h = sym (find-EmptyFrom_zero p slots h.1)
  find_slot-find p (some a ∷ slots) i zero h = cc (h.0)
  find_slot-find p (none ∷ slots) i (suc n) h = find_slot-find p slots (i + 1) n h
  find_slot-find p (some a ∷ slots) i (suc n) h = ground (arith, find_slot-find p slots (i + 1) n h)

  -- A record found in a list stands at some position of it, and passes the test.
  abbrev pub FoundAt : (A → Bool) → List (Option A) → ℕ → ℕ → ℕ → A → Type ℓ
  FoundAt p slots i n j a =
      (k : ℕ) × (j ≡ i + k) × (k < n) × (get_elem? slots k ≡ some (some a)) × (p a ≡ true)

  FoundAt-cons :
      (p : A → Bool) (x : Option A) (slots : List (Option A)) (i n j : ℕ) (a : A)
      → FoundAt p slots (i + 1) n j a
      → FoundAt p (x ∷ slots) i (suc n) j a
  FoundAt-cons p x slots i n j a (k, e, b, g, t) = (suc k, omega arith, omega arith, g, t)

  pub find_slot-FoundAt :
      (p : A → Bool) (slots : List (Option A)) (i n : ℕ) {j : ℕ} {a : A}
      → find_slot p slots i n ≡ some (j, a)
      → FoundAt p slots i n j a
  unfolding find_slot
  find_slot-FoundAt p slots i zero h = cc
  find_slot-FoundAt p [] i (suc n) h = cc
  find_slot-FoundAt p (none ∷ slots) i (suc n) h =
      FoundAt-cons p none slots i n _ _ (find_slot-FoundAt p slots (i + 1) n h)
  find_slot-FoundAt p (some b ∷ slots) i (suc n) h = elim (Bool-cases (p b)) [
    | inl t ↦ (0, ground arith, omega arith, ground arith, ground arith)
    | inr t ↦
        FoundAt-cons p (some b) slots i n _ _ (find_slot-FoundAt p slots (i + 1) n (ground arith))
  ]

  -- A free slot that is found is in range and NULL.
  pub first_free-eq-some :
      (slots : List (Option A)) (i n : ℕ) {j : ℕ}
      → first_free slots i n ≡ some j
      → (k : ℕ) × (j ≡ i + k) × (k < n) × (get_elem? slots k ≡ some none)
  unfolding first_free
  first_free-eq-some slots i zero h = cc
  first_free-eq-some [] i (suc n) h = cc
  first_free-eq-some (none ∷ slots) i (suc n) h = (0, ground arith, omega arith, refl)
  first_free-eq-some (some b ∷ slots) i (suc n) h =
      let (k, e, l, g) = first_free-eq-some slots (i + 1) n h in
      (suc k, omega arith, omega arith, g)
