-- ===== src/Records/Maintenance.antt =====
-- src/records.c: enumeration with a callback, maintenance and destruction. A callback runs on a state
-- of its own; one that enumerates may write to the record, and stops the loop by a result other than 0.
use agentsmith.Base.{
  ℕ, zero, suc, ◌+◌, ◌-◌, ◌*◌, ◌/◌, ◌%◌, Bool, true, false, List, [], ◌∷◌, Option, none, some, ◌==◌,
  ltb, leb, take, if◌then◌else◌,
}
use agentsmith.Base.Outcome.{Outcome, ret, die, ◌>>=◌, ◌>>◌, assert, Retval, ok, err, Env}
use agentsmith.Slots.{chunk}
use agentsmith.Records.{HostRecord, Vector}

abbrev pub Slots : Type 0
Slots = List (Option HostRecord)

module _ {S : Type 0} where
  -- The loop of `_records_enumerate` over the n slots left.
  unfoldable pub visit :
      (S → HostRecord → Outcome (S × HostRecord × ℕ)) → S → Slots → ℕ → Outcome (S × Slots)
  visit cb s slots zero = ret (s, slots)
  visit cb s [] (suc n) = ret (s, [])
  visit cb s (none ∷ slots) (suc n) = do (s', slots') ← visit cb s slots n; ret (s', none ∷ slots')
  visit cb s (some r ∷ slots) (suc n) = do
    (s', r', stop) ← cb s r
    elim (stop == 0) [
      | true ↦ do (s'', slots') ← visit cb s' slots n; ret (s'', some r' ∷ slots')
      | false ↦ ret (s', some r' ∷ slots)
    ]

  -- `_records_enumerate`, and `records_enumerate` in the mode SYNC.
  unfoldable pub records_enumerate :
      (S → HostRecord → Outcome (S × HostRecord × ℕ))
      → Env
      → S
      → Vector
      → Outcome (S × Vector × Retval)
  unfolding visit
  records_enumerate cb e s v = do
    assert v.initialized
    if e.lock == 0
        then (do
          (s', slots') ← visit cb s v.slots v.fill
          ret (s', record v { slots = slots' }, if e.unlock == 0 then ok else err))
        else ret (s, v, err)

  -- The callback for removals, which may be NULL.
  unfoldable pub notify : Option (S → HostRecord → Outcome S) → S → HostRecord → Outcome S
  notify none s r = ret s
  notify (some cb) s r = cb s r

  -- The first loop of `records_maintenance`: flagged records are reported, freed and set to NULL.
  unfoldable pub sweep : Option (S → HostRecord → Outcome S) → S → Slots → ℕ → Outcome (S × Slots)
  unfolding notify
  sweep cb s slots zero = ret (s, slots)
  sweep cb s [] (suc n) = ret (s, [])
  sweep cb s (none ∷ slots) (suc n) = do (s', slots') ← sweep cb s slots n; ret (s', none ∷ slots')
  sweep cb s (some r ∷ slots) (suc n) = elim (r.remove == 0) [
    | true ↦ do (s', slots') ← sweep cb s slots n; ret (s', some r ∷ slots')
    | false ↦ do s' ← notify cb s r; (s'', slots') ← sweep cb s' slots n; ret (s'', none ∷ slots')
  ]

  -- The loop of `records_destroy`.
  unfoldable pub report_all : Option (S → HostRecord → Outcome S) → S → Slots → ℕ → Outcome S
  unfolding notify
  report_all cb s slots zero = ret s
  report_all cb s [] (suc n) = ret s
  report_all cb s (none ∷ slots) (suc n) = report_all cb s slots n
  report_all cb s (some r ∷ slots) (suc n) = do s' ← notify cb s r; report_all cb s' slots n

  -- `records_destroy`; the vector is freed, and the statics are left as they are.
  unfoldable pub records_destroy :
      Option (S → HostRecord → Outcome S) → S → Vector → Outcome (S × Vector)
  unfolding report_all
  records_destroy cb s v = do
    assert v.initialized
    s' ← report_all cb s v.slots v.size
    ret (s', record v { slots = [] })

-- The second loop of `records_maintenance`: one more than the position of the last used slot.
unfoldable pub last_used : Slots → ℕ → ℕ → ℕ → ℕ
last_used slots i zero last = last
last_used [] i (suc n) last = last
last_used (none ∷ slots) i (suc n) last = last_used slots (i + 1) n last
last_used (some r ∷ slots) i (suc n) last = last_used slots (i + 1) n (i + 1)

-- `ceil((double) last / (double) chunk) * chunk`, on integers.
unfoldable pub round_up : ℕ → ℕ
round_up last = (last + (chunk - 1)) / chunk * chunk

-- The end of `records_maintenance`: the block shrinks to the used slots, in whole chunks.
unfoldable pub shrink : Bool → Vector → ℕ → Outcome Vector
unfolding round_up
shrink memory v last = if last == v.size then ret v else (do
  let new_size = round_up last
  assert (new_size % chunk == 0)
  let new_size' = if ltb new_size chunk then chunk else new_size
  assert (leb last new_size')
  if memory
      then ret (record v { slots = take new_size' v.slots; size = new_size'; fill = last })
      else die 3)

module _ {S : Type 0} where
  unfoldable pub records_maintenance :
      Option (S → HostRecord → Outcome S) → Env → S → Vector → Outcome (S × Vector × Retval)
  unfolding sweep last_used shrink
  records_maintenance cb e s v = do
    assert v.initialized
    if e.lock == 0
        then (do
          (s', slots') ← sweep cb s v.slots v.size
          v' ← shrink e.realloc (record v { slots = slots' }) (last_used slots' 0 v.size 0)
          ret (s', v', if e.unlock == 0 then ok else err))
        else ret (s, v, err)
