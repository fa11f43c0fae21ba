-- ===== src/Records/Sweeping.antt =====
-- The two loops of `records_maintenance` in src/records.c: what they remove and report, and the last
-- used slot.
use agentsmith.Base.{
  ℕ, zero, suc, ◌+◌, ◌≤◌, [], ◌∷◌, Option, none, some, ◌==◌, ◌≡◌, refl, ◌⊎◌, inl, inr, arith,
  if◌then◌else◌, equal_iff, Bool-cases, length, get_elem?,
}
use agentsmith.Base.Outcome.{Outcome, ret}
use agentsmith.Base.Cstring.{Bytes}
use agentsmith.Slots.Find.{EmptyFrom}
use agentsmith.Slots.Unique.{lookup, IsUnique}
use agentsmith.Records.{HostRecord}
use agentsmith.Records.Lookup.{key}
use agentsmith.Records.Maintenance.{Slots, notify, sweep, last_used}

-- The slots with the flagged records taken out.
abbrev pub swept : Slots → Slots
swept [] = []
swept (none ∷ slots) = none ∷ swept slots
swept (some r ∷ slots) = (if r.remove == 0 then some r else none) ∷ swept slots

abbrev pub kept : Option HostRecord → Option HostRecord
kept none = none
kept (some r) = if r.remove == 0 then some r else none

-- The callback runs on the flagged records, in the order of the slots.
abbrev pub reports : {S : Type 0} → (S → HostRecord → S) → S → Slots → S
reports f s [] = s
reports f s (none ∷ slots) = reports f s slots
reports f s (some r ∷ slots) = reports f (if r.remove == 0 then s else f s r) slots

pub length-swept : (slots : Slots) → length (swept slots) ≡ length slots
length-swept [] = refl
length-swept (none ∷ slots) = omega (arith, length-swept slots)
length-swept (some r ∷ slots) = omega (arith, length-swept slots)

pub lookup-swept :
    (k : Bytes) (slots : Slots)
    → IsUnique key slots
    → lookup key k (swept slots) ≡ kept (lookup key k slots)
lookup-swept k [] u = refl
lookup-swept k (none ∷ slots) u = lookup-swept k slots u
lookup-swept k (some r ∷ slots) u =
    ground (arith, equal_iff (key r) k, lookup-swept k slots u.1, u.0)

pub IsUnique-swept : (slots : Slots) → IsUnique key slots → IsUnique key (swept slots)
IsUnique-swept [] u = u
IsUnique-swept (none ∷ slots) u = IsUnique-swept slots u
IsUnique-swept (some r ∷ slots) u = elim (Bool-cases (r.remove == 0)) [
  | inl e ↦ rw e (rw (lookup-swept (key r) slots u.1, u.0) refl, IsUnique-swept slots u.1)
  | inr e ↦ rw e (IsUnique-swept slots u.1)
]

pub EmptyFrom-swept : (n : ℕ) (slots : Slots) → EmptyFrom n slots → EmptyFrom n (swept slots)
EmptyFrom-swept n [] e = tt
EmptyFrom-swept zero (none ∷ slots) e = (refl, EmptyFrom-swept zero slots e.1)
EmptyFrom-swept zero (some r ∷ slots) e = cc (e.0)
EmptyFrom-swept (suc n) (none ∷ slots) e = EmptyFrom-swept n slots e
EmptyFrom-swept (suc n) (some r ∷ slots) e = EmptyFrom-swept n slots e

-- Where the callback returns, the sweep returns the swept slots.
pub sweep-swept :
    {S : Type 0} (cb : Option (S → HostRecord → Outcome S)) (f : S → HostRecord → S) (s : S)
    (slots : Slots) (n : ℕ)
    → ((s : S) (r : HostRecord) → notify cb s r ≡ ret (f s r))
    → length slots ≡ n
    → sweep cb s slots n ≡ ret (reports f s slots, swept slots)
unfolding sweep
sweep-swept cb f s [] zero total h = refl
sweep-swept cb f s [] (suc n) total h = refl
sweep-swept cb f s (x ∷ slots) zero total h = absurd (omega arith)
sweep-swept cb f s (none ∷ slots) (suc n) total h =
    rw (sweep-swept cb f s slots n total (omega arith))
sweep-swept cb f s (some r ∷ slots) (suc n) total h = elim (Bool-cases (r.remove == 0)) [
  | inl e ↦ rw (e, sweep, sweep-swept cb f s slots n total (omega arith))
  | inr e ↦ rw (e, sweep, total, sweep-swept cb f (f s r) slots n total (omega arith))
]

-- A fill that ends at a used slot, or at none.
abbrev pub EndsUsed : ℕ → Slots → Type 0
EndsUsed zero slots = Unit
EndsUsed (suc k) slots = (r : HostRecord) × (get_elem? slots k ≡ some (some r))

abbrev pub LastUsed : Slots → ℕ → ℕ → ℕ → Type 0
LastUsed slots i last result =
    ((result ≡ last) × EmptyFrom 0 slots)
    ⊎ ((k : ℕ) × (result ≡ i + suc k)
        × (suc k ≤ length slots)
        × EmptyFrom (suc k) slots
        × EndsUsed (suc k) slots)

pub last_used_lem :
    (slots : Slots) (i n last : ℕ)
    → length slots ≡ n
    → LastUsed slots i last (last_used slots i n last)
unfolding last_used
last_used_lem [] i zero last h = inl (refl, tt)
last_used_lem [] i (suc n) last h = inl (refl, tt)
last_used_lem (x ∷ slots) i zero last h = absurd (omega arith)
last_used_lem (none ∷ slots) i (suc n) last h =
    elim (last_used_lem slots (i + 1) n last (omega arith)) [
      | inl (e, em) ↦ inl (e, (refl, em))
      | inr (k, e, b, em, used) ↦ inr (suc k, omega arith, omega arith, em, used)
    ]
last_used_lem (some r ∷ slots) i (suc n) last h =
    elim (last_used_lem slots (i + 1) n (i + 1) (omega arith)) [
      | inl (e, em) ↦ inr (0, omega arith, omega arith, em, (r, refl))
      | inr (k, e, b, em, used) ↦ inr (suc k, omega arith, omega arith, em, used)
    ]
