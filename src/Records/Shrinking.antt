-- ===== src/Records/Shrinking.antt =====
-- `records_maintenance` of src/records.c: the flagged records are gone, all others stay, and the block
-- shrinks to the used slots.
use agentsmith.Base.{
  ℕ, suc, ◌+◌, ◌%◌, ◌≤◌, ◌<◌, Bool, false, Option, ◌==◌, ◌≡◌, ◌≢◌, refl, ◌∙◌, ◌⊎◌, inl, inr, arith,
  if◌then◌else◌, Bool-cases, eq_of_test, ne_of_test, take, length-take, ltb,
}
use native.Mathlib.Nat.{zero-add}
use agentsmith.Base.Outcome.{Outcome, ret, die, ok, err, Env, ReturnsOrExits, assert_holds}
use agentsmith.Base.Cstring.{Bytes}
use agentsmith.Slots.{chunk}
use agentsmith.Slots.Find.{EmptyFrom}
use agentsmith.Records.{HostRecord, Vector}
use agentsmith.Records.Lookup.{view, IsValid}
use agentsmith.Records.Add.{IsServing}
use agentsmith.Records.Maintenance.{notify, last_used, round_up, shrink, records_maintenance}
use agentsmith.Records.Sweeping.{
  swept, kept, reports, length-swept, lookup-swept, IsUnique-swept, EmptyFrom-swept, sweep-swept,
  EndsUsed, LastUsed, last_used_lem,
}
use agentsmith.Records.Cutting.{
  find-take, EmptyFrom-take, IsUnique-take, EndsUsed-take, EndsUsed-le,
}

round_up_lem :
    (last size : ℕ)
    → last < size
    → size % chunk ≡ 0
    → (round_up last % chunk ≡ 0)
      × (last ≤ round_up last)
      × (round_up last ≤ size)
      × (round_up last < last + chunk)
unfolding round_up
round_up_lem last size h m = omega arith

-- A vector with no slack: the fill ends at a used slot, and the size is the least number of whole
-- chunks, one at least, that covers it.
pub record IsSnug (v : Vector) : Type 0 where
  pub ends_used : EndsUsed v.fill v.slots
  pub close : (v.size < v.fill + chunk) ⊎ (v.size ≡ chunk)

-- A vector as the loops of the maintenance leave it, with its last used slot.
record IsMeasured (v : Vector) (last : ℕ) : Type 0 where
  valid : IsValid v
  within : last ≤ v.size
  covers : EmptyFrom last v.slots
  used : EndsUsed last v.slots

record Shrunk (v u : Vector) : Type 0 where
  valid : IsValid u
  snug : IsSnug u
  views : (j : Bytes) → view u j ≡ view v j

-- Every slot is used.
full-Shrunk : (v : Vector) (last : ℕ) → IsMeasured v last → last ≡ v.size → Shrunk v v
full-Shrunk v last m e =
    let le = EndsUsed-le last v.fill v.slots m.used m.valid.laid_out.empty in
    let same : last ≡ v.fill = omega (arith, m.valid.laid_out.filled) in
    record {
      valid = m.valid;
      snug = record { ends_used = rw (← same) m.used; close = inl (omega arith) };
      views = λ j. refl;
    }

cut-Shrunk :
    (v : Vector) (last size : ℕ)
    → IsMeasured v last
    → size % chunk ≡ 0
    → 0 < size
    → last ≤ size
    → size ≤ v.size
    → (size < last + chunk) ⊎ (size ≡ chunk)
    → Shrunk v (record v { slots = take size v.slots; size = size; fill = last })
cut-Shrunk v last size m c p lo hi close = record {
  valid = record {
    laid_out = record {
      sized = omega (arith, length-take size v.slots, m.valid.laid_out.sized);
      filled = lo;
      chunked = c;
      nonempty = p;
      empty = EmptyFrom-take size last v.slots m.covers;
      started = m.valid.laid_out.started;
    };
    unique = IsUnique-take size last v.slots lo m.covers m.valid.unique;
  };
  snug = record { ends_used = EndsUsed-take size last v.slots lo m.used; close = close };
  views = λ j. find-take _ size last v.slots lo m.covers;
}

-- `shrink` passes both its assertions, and then has the block that it wants, or exits.
shrink_cases :
    (memory : Bool) (v : Vector) (last : ℕ)
    → IsMeasured v last
    → ((u : Vector) × (shrink memory v last ≡ ret u) × Shrunk v u)
      ⊎ ((shrink memory v last ≡ die 3) × (memory ≡ false))
unfolding shrink
shrink_cases memory v last m = elim (Bool-cases (last == v.size)) [
  | inl e ↦ inl (v, rw (e, shrink), full-Shrunk v last m (ground arith))
  | inr e ↦
      let less : last < v.size = ground (arith, m.within) in
      let (c, lo, hi, near) = round_up_lem last v.size less m.valid.laid_out.chunked in
      let size : ℕ = if ltb (round_up last) chunk then chunk else round_up last in
      elim (Bool-cases memory) [
        | inl g ↦ inl (
          record v { slots = take size v.slots; size = size; fill = last },
          ground (arith, c, lo),
          cut-Shrunk v last size m (ground arith) (ground arith) (ground arith)
              (ground (arith, m.valid.laid_out.chunked, m.valid.laid_out.nonempty)) (ground arith),
        )
        | inr g ↦ inr (ground (arith, c, lo), g)
      ]
]

-- The vector after the first loop, with what the second loop computes.
swept-IsMeasured :
    (v : Vector)
    → IsValid v
    → IsMeasured (record v { slots = swept v.slots }) (last_used (swept v.slots) 0 v.size 0)
swept-IsMeasured v w =
    measured (last_used_lem (swept v.slots) 0 v.size 0 (length-swept v.slots ∙ w.laid_out.sized))
  where
    valid' : IsValid (record v { slots = swept v.slots })
    valid' = record {
      laid_out = record {
        sized = length-swept v.slots ∙ w.laid_out.sized;
        filled = w.laid_out.filled;
        chunked = w.laid_out.chunked;
        nonempty = w.laid_out.nonempty;
        empty = EmptyFrom-swept v.fill v.slots w.laid_out.empty;
        started = w.laid_out.started;
      };
      unique = IsUnique-swept v.slots w.unique;
    }

    measured :
        {last : ℕ}
        → LastUsed (swept v.slots) 0 0 last
        → IsMeasured (record v { slots = swept v.slots }) last
    measured (inl (e, em)) =
        rw e (record { valid = valid'; within = omega arith; covers = em; used = tt })
    measured (inr (k, e, b, em, used)) =
        let e' = e ∙ zero-add (suc k) in
        rw e' (record {
          valid = valid';
          within = omega (arith, length-swept v.slots, w.laid_out.sized);
          covers = em;
          used = used;
        })

-- The vector after a maintenance run: the flagged records are gone, all others stay, no slack.
pub record Maintained (v u : Vector) : Type 0 where
  pub valid : IsValid u
  pub snug : IsSnug u
  pub views : (j : Bytes) → view u j ≡ kept (view v j)

Shrunk-Maintained :
    (v u : Vector) → IsValid v → Shrunk (record v { slots = swept v.slots }) u → Maintained v u
Shrunk-Maintained v u w s = record {
  valid = s.valid;
  snug = s.snug;
  views = λ j. s.views j ∙ lookup-swept j v.slots w.unique;
}

module _ {S : Type 0} (cb : Option (S → HostRecord → Outcome S)) (f : S → HostRecord → S)
    (total : (s : S) (r : HostRecord) → notify cb s r ≡ ret (f s r)) (e : Env) (s : S) (v : Vector)
    (w : IsValid v) where
  -- With a callback that returns, `records_maintenance` on a valid vector passes its assertions. It
  -- returns or exits with code 3. If it returns and the lock was granted, the callback has run on
  -- the flagged records in the order of the slots, those records are gone and no others, the
  -- vector is valid, its fill ends at a used slot and its size has no chunk to spare. If the lock
  -- failed, nothing has changed and the result is RETVAL_ERR.
  pub records_maintenance-Maintained :
      ReturnsOrExits
        (λ (s', u, r).
          ((e.lock ≡ 0) × (s' ≡ reports f s v.slots) × Maintained v u)
          ⊎ ((e.lock ≢ 0) × (s' ≡ s) × (u ≡ v) × (r ≡ err)))
        (records_maintenance cb e s v)
  unfolding records_maintenance
  records_maintenance-Maintained =
      rw (assert_holds v.initialized _ w.laid_out.started) (elim (Bool-cases (e.lock == 0)) [
        | inr l ↦ rw l (inr (ne_of_test _ _ l, refl, refl, refl))
        | inl l ↦
            rw (l, sweep-swept cb f s v.slots v.size total w.laid_out.sized)
              (elim (shrink_cases e.realloc _ _ (swept-IsMeasured v w)) [
                | inl (u, h, k) ↦ rw h (inl (eq_of_test _ _ l, refl, Shrunk-Maintained v u w k))
                | inr (h, _) ↦ rw h refl
              ])
      ])

  -- When the system grants everything, it returns RETVAL_OK.
  pub records_maintenance_served :
      IsServing e
      → (u : Vector) × (records_maintenance cb e s v ≡ ret (reports f s v.slots, u, ok))
        × Maintained v u
  unfolding records_maintenance
  records_maintenance_served g = elim (shrink_cases e.realloc _ _ (swept-IsMeasured v w)) [
    | inl (u, h, k) ↦ (
      u,
      rw (assert_holds v.initialized _ w.laid_out.started) (
          rw (g.locks, g.unlocks, sweep-swept cb f s v.slots v.size total w.laid_out.sized, h)
            refl),
      Shrunk-Maintained v u w k,
    )
    | inr (_, m) ↦ cc (g.reallocs)
  ]
