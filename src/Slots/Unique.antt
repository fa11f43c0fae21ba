-- ===== src/Slots/Unique.antt =====
-- A vector whose records have distinct keys is a map: what a write to one slot does to a lookup.
use agentsmith.Base.{
  ℕ, zero, suc, Bool, false, List, [], ◌∷◌, Option, none, some, ◌≡◌, refl, inl, inr, arith,
  Bool-cases, get_elem?, set, if◌then◌else◌, equal, equal_iff, equal_comm,
}
use agentsmith.Slots.Find.{find}

module _ {ℓ} {A : Type ℓ} (key : A → List ℕ) where
  abbrev pub has_key : List ℕ → A → Bool
  has_key k a = equal (key a) k

  -- The record of a key, among all slots.
  abbrev pub lookup : List ℕ → List (Option A) → Option A
  lookup k slots = find (has_key k) slots

  -- No two records have one key.
  abbrev pub IsUnique : List (Option A) → Type ℓ
  IsUnique [] = Unit
  IsUnique (none ∷ slots) = IsUnique slots
  IsUnique (some a ∷ slots) = (lookup (key a) slots ≡ none) × IsUnique slots

  -- Evaluation of a lookup at an occupied slot.
  lookup-cons_none :
      (k : List ℕ) (b : A) (slots : List (Option A))
      → lookup k (some b ∷ slots) ≡ none
      → (equal (key b) k ≡ false) × (lookup k slots ≡ none)
  lookup-cons_none k b slots h = elim (Bool-cases (equal (key b) k)) [
    | inl e ↦ ground arith
    | inr e ↦ ground arith
  ]

  pub lookup-key :
      (k : List ℕ) (slots : List (Option A)) {a : A} → lookup k slots ≡ some a → key a ≡ k
  lookup-key k [] h = cc
  lookup-key k (none ∷ slots) h = lookup-key k slots h
  lookup-key k (some b ∷ slots) {a} h = elim (Bool-cases (equal (key b) k)) [
    | inl e ↦ ground (arith, equal_iff (key b) k)
    | inr e ↦ lookup-key k slots (rw e at h)
  ]

  -- A new record in a free slot.
  pub lookup-set_free :
      (k : List ℕ) (slots : List (Option A)) (i : ℕ) (a : A)
      → get_elem? slots i ≡ some none
      → lookup (key a) slots ≡ none
      → lookup k (set slots i (some a)) ≡ (if equal (key a) k then some a else lookup k slots)
  lookup-set_free k [] i a g h = cc
  lookup-set_free k (none ∷ slots) zero a g h = refl
  lookup-set_free k (some b ∷ slots) zero a g h = cc
  lookup-set_free k (none ∷ slots) (suc i) a g h = lookup-set_free k slots i a g h
  lookup-set_free k (some b ∷ slots) (suc i) a g h = ground (
    arith,
    equal_iff (key b) k,
    equal_iff (key a) k,
    equal_iff (key b) (key a),
    lookup-set_free k slots i a g,
  )

  pub IsUnique-set_free :
      (slots : List (Option A)) (i : ℕ) (a : A)
      → get_elem? slots i ≡ some none
      → lookup (key a) slots ≡ none
      → IsUnique slots
      → IsUnique (set slots i (some a))
  IsUnique-set_free [] i a g h u = u
  IsUnique-set_free (none ∷ slots) zero a g h u = (h, u)
  IsUnique-set_free (some b ∷ slots) zero a g h u = cc
  IsUnique-set_free (none ∷ slots) (suc i) a g h u = IsUnique-set_free slots i a g h u
  IsUnique-set_free (some b ∷ slots) (suc i) a g h u =
      let (ne, h') = lookup-cons_none (key a) b slots h in
      (
        rw (lookup-set_free (key b) slots i a g h', equal_comm (key a) (key b), ne) u.0,
        IsUnique-set_free slots i a g h' u.1,
      )

  -- A record rewritten in place, or removed.
  pub lookup-none_of_get :
      (slots : List (Option A)) (i : ℕ) (r : A) (k : List ℕ)
      → get_elem? slots i ≡ some (some r)
      → lookup k slots ≡ none
      → equal (key r) k ≡ false
  lookup-none_of_get [] i r k g h = cc
  lookup-none_of_get (none ∷ slots) zero r k g h = cc
  lookup-none_of_get (some b ∷ slots) zero r k g h = ground (arith, lookup-cons_none k b slots)
  lookup-none_of_get (none ∷ slots) (suc i) r k g h = lookup-none_of_get slots i r k g h
  lookup-none_of_get (some b ∷ slots) (suc i) r k g h =
      lookup-none_of_get slots i r k g (lookup-cons_none k b slots h).1

  pub lookup-set-none :
      (k : List ℕ) (slots : List (Option A)) (i : ℕ) (r : A)
      → get_elem? slots i ≡ some (some r)
      → IsUnique slots
      → lookup k (set slots i none) ≡ (if equal (key r) k then none else lookup k slots)
  lookup-set-none k [] i r g u = cc
  lookup-set-none k (none ∷ slots) zero r g u = cc
  lookup-set-none k (some b ∷ slots) zero r g u = ground (arith, equal_iff (key b) k)
  lookup-set-none k (none ∷ slots) (suc i) r g u = lookup-set-none k slots i r g u
  lookup-set-none k (some b ∷ slots) (suc i) r g u = ground (
    arith,
    equal_iff (key b) k,
    equal_iff (key r) k,
    equal_iff (key r) (key b),
    lookup-none_of_get slots i r (key b) g u.0,
    lookup-set-none k slots i r g u.1,
  )

  pub lookup-set-some :
      (k : List ℕ) (slots : List (Option A)) (i : ℕ) (r a : A)
      → get_elem? slots i ≡ some (some r)
      → key a ≡ key r
      → IsUnique slots
      → lookup k (set slots i (some a)) ≡ (if equal (key r) k then some a else lookup k slots)
  lookup-set-some k [] i r a g e u = cc
  lookup-set-some k (none ∷ slots) zero r a g e u = cc
  lookup-set-some k (some b ∷ slots) zero r a g e u = ground arith
  lookup-set-some k (none ∷ slots) (suc i) r a g e u = lookup-set-some k slots i r a g e u
  lookup-set-some k (some b ∷ slots) (suc i) r a g e u = ground (
    arith,
    equal_iff (key b) k,
    equal_iff (key r) k,
    equal_iff (key r) (key b),
    lookup-none_of_get slots i r (key b) g u.0,
    lookup-set-some k slots i r a g e u.1,
  )

  pub IsUnique-set-none :
      (slots : List (Option A)) (i : ℕ) (r : A)
      → get_elem? slots i ≡ some (some r)
      → IsUnique slots
      → IsUnique (set slots i none)
  IsUnique-set-none [] i r g u = u
  IsUnique-set-none (none ∷ slots) zero r g u = u
  IsUnique-set-none (some b ∷ slots) zero r g u = u.1
  IsUnique-set-none (none ∷ slots) (suc i) r g u = IsUnique-set-none slots i r g u
  IsUnique-set-none (some b ∷ slots) (suc i) r g u =
      (ground (arith, lookup-set-none (key b) slots i r g u.1), IsUnique-set-none slots i r g u.1)

  pub IsUnique-set-some :
      (slots : List (Option A)) (i : ℕ) (r a : A)
      → get_elem? slots i ≡ some (some r)
      → key a ≡ key r
      → IsUnique slots
      → IsUnique (set slots i (some a))
  IsUnique-set-some [] i r a g e u = u
  IsUnique-set-some (none ∷ slots) zero r a g e u = cc
  IsUnique-set-some (some b ∷ slots) zero r a g e u = (ground (arith, u.0), u.1)
  IsUnique-set-some (none ∷ slots) (suc i) r a g e u = IsUnique-set-some slots i r a g e u
  IsUnique-set-some (some b ∷ slots) (suc i) r a g e u = (
    ground (
      arith,
      lookup-set-some (key b) slots i r a g e u.1,
      lookup-none_of_get slots i r (key b) g u.0,
    ),
    IsUnique-set-some slots i r a g e u.1,
  )
