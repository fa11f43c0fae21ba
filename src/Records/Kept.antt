-- ===== src/Records/Kept.antt =====
-- The enumeration of src/records.c with a callback that keeps the addresses, whatever else it does and the
-- system answers: the vector stays valid.
use agentsmith.Base.{
  ℕ, zero, suc, [], ◌∷◌, none, some, ◌==◌, ◌≡◌, refl, ◌∙◌, inl, inr, arith, Bool-cases, equal,
  length,
}
use agentsmith.Base.Outcome.{Outcome, Env, IfReturns, bind-IfReturns, assert-IfReturns}
use agentsmith.Base.Cstring.{Bytes}
use agentsmith.Slots.Find.{EmptyFrom}
use agentsmith.Slots.Unique.{lookup, IsUnique}
use agentsmith.Records.{HostRecord, Vector}
use agentsmith.Records.Lookup.{key, IsValid}
use agentsmith.Records.Maintenance.{Slots, visit, records_enumerate}

-- The same slots are in use, by records of the same addresses.
abbrev pub SameKeys : Slots → Slots → Type 0
SameKeys [] [] = Unit
SameKeys (none ∷ a) (none ∷ b) = SameKeys a b
SameKeys (some x ∷ a) (some y ∷ b) = (key y ≡ key x) × SameKeys a b
SameKeys _ _ = ⊥

SameKeys-refl : (a : Slots) → SameKeys a a
SameKeys-refl [] = tt
SameKeys-refl (none ∷ a) = SameKeys-refl a
SameKeys-refl (some x ∷ a) = (refl, SameKeys-refl a)

length-SameKeys : (a b : Slots) → SameKeys a b → length b ≡ length a
length-SameKeys [] [] k = refl
length-SameKeys [] (y ∷ b) k = absurd k
length-SameKeys (none ∷ a) [] k = absurd k
length-SameKeys (some x ∷ a) [] k = absurd k
length-SameKeys (none ∷ a) (none ∷ b) k = omega (arith, length-SameKeys a b k)
length-SameKeys (none ∷ a) (some y ∷ b) k = absurd k
length-SameKeys (some x ∷ a) (none ∷ b) k = absurd k
length-SameKeys (some x ∷ a) (some y ∷ b) k = omega (arith, length-SameKeys a b k.1)

EmptyFrom-SameKeys : (n : ℕ) (a b : Slots) → SameKeys a b → EmptyFrom n a → EmptyFrom n b
EmptyFrom-SameKeys n [] [] k e = tt
EmptyFrom-SameKeys n [] (y ∷ b) k e = absurd k
EmptyFrom-SameKeys n (none ∷ a) [] k e = absurd k
EmptyFrom-SameKeys n (some x ∷ a) [] k e = absurd k
EmptyFrom-SameKeys n (none ∷ a) (some y ∷ b) k e = absurd k
EmptyFrom-SameKeys n (some x ∷ a) (none ∷ b) k e = absurd k
EmptyFrom-SameKeys zero (none ∷ a) (none ∷ b) k e = (refl, EmptyFrom-SameKeys zero a b k e.1)
EmptyFrom-SameKeys zero (some x ∷ a) (some y ∷ b) k e = cc (e.0)
EmptyFrom-SameKeys (suc n) (none ∷ a) (none ∷ b) k e = EmptyFrom-SameKeys n a b k e
EmptyFrom-SameKeys (suc n) (some x ∷ a) (some y ∷ b) k e = EmptyFrom-SameKeys n a b k.1 e

lookup-SameKeys :
    (j : Bytes) (a b : Slots) → SameKeys a b → lookup key j a ≡ none → lookup key j b ≡ none
lookup-SameKeys j [] [] k h = refl
lookup-SameKeys j [] (y ∷ b) k h = absurd k
lookup-SameKeys j (none ∷ a) [] k h = absurd k
lookup-SameKeys j (some x ∷ a) [] k h = absurd k
lookup-SameKeys j (none ∷ a) (some y ∷ b) k h = absurd k
lookup-SameKeys j (some x ∷ a) (none ∷ b) k h = absurd k
lookup-SameKeys j (none ∷ a) (none ∷ b) k h = lookup-SameKeys j a b k h
lookup-SameKeys j (some x ∷ a) (some y ∷ b) k h = elim (Bool-cases (equal (key x) j)) [
  | inl e ↦ cc (rw e at h)
  | inr e ↦ rw (k.0, e) (lookup-SameKeys j a b k.1 (rw e at h))
]

IsUnique-SameKeys : (a b : Slots) → SameKeys a b → IsUnique key a → IsUnique key b
IsUnique-SameKeys [] [] k u = tt
IsUnique-SameKeys [] (y ∷ b) k u = absurd k
IsUnique-SameKeys (none ∷ a) [] k u = absurd k
IsUnique-SameKeys (some x ∷ a) [] k u = absurd k
IsUnique-SameKeys (none ∷ a) (some y ∷ b) k u = absurd k
IsUnique-SameKeys (some x ∷ a) (none ∷ b) k u = absurd k
IsUnique-SameKeys (none ∷ a) (none ∷ b) k u = IsUnique-SameKeys a b k u
IsUnique-SameKeys (some x ∷ a) (some y ∷ b) k u =
    (rw (k.0) (lookup-SameKeys (key x) a b k.1 u.0), IsUnique-SameKeys a b k.1 u.1)

SameKeys-IsValid :
    (v : Vector) (slots : Slots)
    → SameKeys v.slots slots
    → IsValid v
    → IsValid (record v { slots = slots })
SameKeys-IsValid v slots k w = record {
  laid_out = record {
    sized = length-SameKeys v.slots slots k ∙ w.laid_out.sized;
    filled = w.laid_out.filled;
    chunked = w.laid_out.chunked;
    nonempty = w.laid_out.nonempty;
    empty = EmptyFrom-SameKeys v.fill v.slots slots k w.laid_out.empty;
    started = w.laid_out.started;
  };
  unique = IsUnique-SameKeys v.slots slots k w.unique;
}

module _ {S : Type 0} (P : S → Type 0) (cb : S → HostRecord → Outcome (S × HostRecord × ℕ))
    (keeps : (s : S) (r : HostRecord)
      → P s
      → IfReturns (λ (s', r', stop). P s' × (key r' ≡ key r)) (cb s r)) where
  visit-SameKeys :
      (s : S) (slots : Slots) (n : ℕ)
      → P s
      → IfReturns (λ (s', slots'). P s' × SameKeys slots slots') (visit cb s slots n)
  unfolding visit
  visit-SameKeys s slots zero p = (p, SameKeys-refl slots)
  visit-SameKeys s [] (suc n) p = (p, tt)
  visit-SameKeys s (none ∷ slots) (suc n) p =
      bind-IfReturns _ _ (visit cb s slots n) _ (visit-SameKeys s slots n p) (λ (s', slots') q. q)
  visit-SameKeys s (some r ∷ slots) (suc n) p =
      bind-IfReturns (λ (s', r', stop). P s' × (key r' ≡ key r)) _ (cb s r) _ (keeps s r p)
        (λ (s', r', stop) (q, k). elim (Bool-cases (stop == 0)) [
          | inl e ↦
              rw (e, IfReturns)
                (bind-IfReturns _ _ (visit cb s' slots n) _ (visit-SameKeys s' slots n q)
                  (λ (s'', slots') (q', k'). (q', (k, k'))))
          | inr e ↦ rw (e, IfReturns) (q, (k, SameKeys-refl slots))
        ])

  pub records_enumerate-Kept :
      (e : Env) (s : S) (v : Vector)
      → P s
      → IsValid v
      → IfReturns (λ (s', u, r). P s' × IsValid u) (records_enumerate cb e s v)
  unfolding records_enumerate
  records_enumerate-Kept e s v p w =
      assert-IfReturns _ v.initialized _ (elim (Bool-cases (e.lock == 0)) [
        | inr l ↦ rw (l, IfReturns) (p, w)
        | inl l ↦
            rw (l, IfReturns)
              (bind-IfReturns (λ (s', slots'). P s' × SameKeys v.slots slots') _
                (visit cb s v.slots v.fill) _ (visit-SameKeys s v.slots v.fill p)
                (λ (s', slots') (q, k). (q, SameKeys-IsValid v slots' k w)))
      ])
