-- ===== src/Records/Marking.antt =====
-- An enumeration of src/records.c with a callback that always goes on: every record is rewritten in place.
use agentsmith.Base.{
  ℕ, zero, suc, [], ◌∷◌, Option, none, some, ◌≡◌, refl, ap, ◌∙◌, inl, inr, arith, equal, Bool-cases,
  length,
}
use agentsmith.Base.Outcome.{Outcome, ret, ok, Env, assert_holds}
use agentsmith.Base.Cstring.{Bytes}
use agentsmith.Slots.Find.{EmptyFrom}
use agentsmith.Slots.Unique.{lookup, IsUnique}
use agentsmith.Slots.Layout.{IsLaidOut}
use agentsmith.Records.{HostRecord, Vector}
use agentsmith.Records.Lookup.{key, view, IsValid}
use agentsmith.Records.Add.{IsServing}
use agentsmith.Records.Maintenance.{Slots, visit, records_enumerate}

abbrev pub rewritten : (HostRecord → HostRecord) → Slots → Slots
rewritten f [] = []
rewritten f (none ∷ slots) = none ∷ rewritten f slots
rewritten f (some r ∷ slots) = some (f r) ∷ rewritten f slots

abbrev pub rewrite : (HostRecord → HostRecord) → Option HostRecord → Option HostRecord
rewrite f none = none
rewrite f (some r) = some (f r)

-- The states that the callback goes through.
abbrev pub visited : {S : Type 0} → (S → HostRecord → S) → S → Slots → S
visited g s [] = s
visited g s (none ∷ slots) = visited g s slots
visited g s (some r ∷ slots) = visited g (g s r) slots

module _ (f : HostRecord → HostRecord) (same_key : (r : HostRecord) → key (f r) ≡ key r) where
  lookup-rewritten :
      (j : Bytes) (slots : Slots)
      → lookup key j (rewritten f slots) ≡ rewrite f (lookup key j slots)
  lookup-rewritten j [] = refl
  lookup-rewritten j (none ∷ slots) = lookup-rewritten j slots
  lookup-rewritten j (some r ∷ slots) = elim (Bool-cases (equal (key r) j)) [
    | inl e ↦ rw (same_key r, e) refl
    | inr e ↦ rw (same_key r, e) (lookup-rewritten j slots)
  ]

  IsUnique-rewritten : (slots : Slots) → IsUnique key slots → IsUnique key (rewritten f slots)
  IsUnique-rewritten [] u = u
  IsUnique-rewritten (none ∷ slots) u = IsUnique-rewritten slots u
  IsUnique-rewritten (some r ∷ slots) u = (
    rw (same_key r) (lookup-rewritten (key r) slots ∙ ap (rewrite f) u.0),
    IsUnique-rewritten slots u.1,
  )

  length-rewritten : (slots : Slots) → length (rewritten f slots) ≡ length slots
  length-rewritten [] = refl
  length-rewritten (none ∷ slots) = omega (arith, length-rewritten slots)
  length-rewritten (some r ∷ slots) = omega (arith, length-rewritten slots)

  EmptyFrom-rewritten :
      (n : ℕ) (slots : Slots) → EmptyFrom n slots → EmptyFrom n (rewritten f slots)
  EmptyFrom-rewritten n [] e = tt
  EmptyFrom-rewritten zero (none ∷ slots) e = (refl, EmptyFrom-rewritten zero slots e.1)
  EmptyFrom-rewritten zero (some r ∷ slots) e = cc (e.0)
  EmptyFrom-rewritten (suc n) (none ∷ slots) e = EmptyFrom-rewritten n slots e
  EmptyFrom-rewritten (suc n) (some r ∷ slots) e = EmptyFrom-rewritten n slots e

  pub rewritten-IsValid :
      (v : Vector) → IsValid v → IsValid (record v { slots = rewritten f v.slots })
  rewritten-IsValid v w = record {
    laid_out = record {
      sized = length-rewritten v.slots ∙ w.laid_out.sized;
      filled = w.laid_out.filled;
      chunked = w.laid_out.chunked;
      nonempty = w.laid_out.nonempty;
      empty = EmptyFrom-rewritten v.fill v.slots w.laid_out.empty;
      started = w.laid_out.started;
    };
    unique = IsUnique-rewritten v.slots w.unique;
  }

  pub view-rewritten :
      (v : Vector) (j : Bytes)
      → view (record v { slots = rewritten f v.slots }) j ≡ rewrite f (view v j)
  view-rewritten v j = lookup-rewritten j v.slots

module _ {S : Type 0} (cb : S → HostRecord → Outcome (S × HostRecord × ℕ)) (g : S → HostRecord → S)
    (f : HostRecord → HostRecord)
    (total : (s : S) (r : HostRecord) → cb s r ≡ ret (g s r, f r, 0)) where
  empty_rewritten :
      (s : S) (slots : Slots)
      → EmptyFrom zero slots
      → (visited g s slots ≡ s) × (rewritten f slots ≡ slots)
  empty_rewritten s [] e = (refl, refl)
  empty_rewritten s (none ∷ slots) e =
      let (a, b) = empty_rewritten s slots e.1 in (a, ap (λ x. none ∷ x) b)
  empty_rewritten s (some r ∷ slots) e = cc (e.0)

  visit-rewritten :
      (s : S) (slots : Slots) (n : ℕ)
      → EmptyFrom n slots
      → visit cb s slots n ≡ ret (visited g s slots, rewritten f slots)
  unfolding visit
  visit-rewritten s slots zero e = let (a, b) = empty_rewritten s slots e in rw (a, b) refl
  visit-rewritten s [] (suc n) e = refl
  visit-rewritten s (none ∷ slots) (suc n) e = rw (visit-rewritten s slots n e) refl
  visit-rewritten s (some r ∷ slots) (suc n) e =
      rw (total s r) (rw (visit-rewritten (g s r) slots n e) refl)

  pub records_enumerate-rewritten :
      (e : Env) (s : S) (v : Vector)
      → IsServing e
      → IsLaidOut v
      → records_enumerate cb e s v
        ≡ ret (visited g s v.slots, record v { slots = rewritten f v.slots }, ok)
  unfolding records_enumerate
  records_enumerate-rewritten e s v serving w =
      assert_holds v.initialized _ w.started
      ∙ rw (serving.locks, serving.unlocks) (rw (visit-rewritten s v.slots v.fill w.empty) refl)
