-- ===== src/Records/Cutting.antt =====
-- What is lost when the block of src/records.c is cut behind its last used slot: nothing.
use agentsmith.Base.{
  ℕ, zero, suc, ◌≤◌, ◌<◌, Bool, [], ◌∷◌, Option, none, some, ◌≡◌, refl, sym, ◌∙◌, arith, get_elem?,
  take,
}
use agentsmith.Slots.Find.{find, EmptyFrom, find-EmptyFrom_zero}
use agentsmith.Slots.Unique.{IsUnique}
use agentsmith.Records.{HostRecord}
use agentsmith.Records.Lookup.{key}
use agentsmith.Records.Maintenance.{Slots}
use agentsmith.Records.Sweeping.{EndsUsed}

pub find-take :
    (p : HostRecord → Bool) (n m : ℕ) (slots : Slots)
    → m ≤ n
    → EmptyFrom m slots
    → find p (take n slots) ≡ find p slots
find-take p zero m [] h e = refl
find-take p (suc n) m [] h e = refl
find-take p zero zero (x ∷ slots) h e = sym (find-EmptyFrom_zero p (x ∷ slots) e)
find-take p zero (suc m) (x ∷ slots) h e = absurd (omega arith)
find-take p (suc n) zero (none ∷ slots) h e = find-take p n zero slots (omega arith) e.1
find-take p (suc n) zero (some r ∷ slots) h e = cc (e.0)
find-take p (suc n) (suc m) (none ∷ slots) h e = find-take p n m slots (omega arith) e
find-take p (suc n) (suc m) (some r ∷ slots) h e =
    ground (arith, find-take p n m slots (omega arith) e)

pub EmptyFrom-take : (n m : ℕ) (slots : Slots) → EmptyFrom m slots → EmptyFrom m (take n slots)
EmptyFrom-take zero m slots e = tt
EmptyFrom-take (suc n) m [] e = tt
EmptyFrom-take (suc n) zero (x ∷ slots) e = (e.0, EmptyFrom-take n zero slots e.1)
EmptyFrom-take (suc n) (suc m) (x ∷ slots) e = EmptyFrom-take n m slots e

pub IsUnique-take :
    (n m : ℕ) (slots : Slots)
    → m ≤ n
    → EmptyFrom m slots
    → IsUnique key slots
    → IsUnique key (take n slots)
IsUnique-take zero m slots h e u = tt
IsUnique-take (suc n) m [] h e u = tt
IsUnique-take (suc n) zero (none ∷ slots) h e u = IsUnique-take n zero slots (omega arith) e.1 u
IsUnique-take (suc n) zero (some r ∷ slots) h e u = cc (e.0)
IsUnique-take (suc n) (suc m) (none ∷ slots) h e u = IsUnique-take n m slots (omega arith) e u
IsUnique-take (suc n) (suc m) (some r ∷ slots) h e u =
    (find-take _ n m slots (omega arith) e ∙ u.0, IsUnique-take n m slots (omega arith) e u.1)

pub EndsUsed-take : (n m : ℕ) (slots : Slots) → m ≤ n → EndsUsed m slots → EndsUsed m (take n slots)
EndsUsed-take n zero slots h e = tt
EndsUsed-take n (suc m) slots h (r, e) = (r, get_elem?-take n m slots h e)
  where
    get_elem?-take :
        (n i : ℕ) (slots : Slots) {x : Option HostRecord}
        → i < n
        → get_elem? slots i ≡ some x
        → get_elem? (take n slots) i ≡ some x
    get_elem?-take zero i slots h e = absurd (omega arith)
    get_elem?-take (suc n) i [] h e = cc
    get_elem?-take (suc n) zero (x ∷ slots) h e = e
    get_elem?-take (suc n) (suc i) (x ∷ slots) h e = get_elem?-take n i slots (omega arith) e

pub used-lt :
    (k m : ℕ) (slots : Slots) {r : HostRecord}
    → get_elem? slots k ≡ some (some r)
    → EmptyFrom m slots
    → k < m
used-lt k m [] g e = cc
used-lt k zero (x ∷ slots) g e = absurd (out_of_place k (x ∷ slots) g e)
  where
    out_of_place :
        (k : ℕ) (slots : Slots) {r : HostRecord}
        → get_elem? slots k ≡ some (some r)
        → EmptyFrom zero slots
        → ⊥
    out_of_place k [] g e = cc
    out_of_place zero (x ∷ slots) g e = cc (e.0)
    out_of_place (suc k) (x ∷ slots) g e = out_of_place k slots g e.1
used-lt zero (suc m) (x ∷ slots) g e = omega arith
used-lt (suc k) (suc m) (x ∷ slots) g e = omega (arith, used-lt k m slots g e)

pub EndsUsed-le : (n m : ℕ) (slots : Slots) → EndsUsed n slots → EmptyFrom m slots → n ≤ m
EndsUsed-le zero m slots u e = omega arith
EndsUsed-le (suc k) m slots (r, g) e = used-lt k m slots g e
