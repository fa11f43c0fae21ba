-- ===== src/Action/Once.antt =====
-- The script of src/threads.c runs once for a record: a later round of the action thread does not run it again.
use agentsmith.Base.{
  ℕ, zero, suc, Bool, false, ◌&&◌, [], ◌∷◌, ◌++◌, none, some, ◌≡◌, refl, ap, ◌∙◌, arith, Bool-cases,
  inl, inr, append-nil, length,
}
use agentsmith.Base.Outcome.{ret, ok, Env}
use agentsmith.Base.Words.{signed_le32}
use agentsmith.Records.{HostRecord, Vector}
use agentsmith.Records.Maintenance.{Slots, records_enumerate}
use agentsmith.Slots.Find.{EmptyFrom}
use agentsmith.Slots.Layout.{IsLaidOut}
use agentsmith.Records.Add.{IsServing}
use agentsmith.Queue.{is_addressed}
use agentsmith.Client.Delivery.{IsRunning}
use agentsmith.Action.{ActionEnv, Actions, is_due, is_stale, records_callback_action_new}
use agentsmith.Action.Rounds.{
  treated, all_treated, all_due, new_commands, AllSlotsAddressed, IsReady, records_enumerate-Ran,
}

-- A record that the callback has treated is not due.
all_due-all_treated : (now : ℕ) (slots : Slots) → all_due (all_treated now slots) ≡ []
all_due-all_treated now [] = refl
all_due-all_treated now (none ∷ slots) = all_due-all_treated now slots
all_due-all_treated now (some r ∷ slots) = elim (Bool-cases (is_due r)) [
  | inl d ↦
      rw (d, never (signed_le32 r.action_threshold r.occurrences)) (all_due-all_treated now slots)
  | inr d ↦ elim (Bool-cases (is_stale now r)) [
    | inl t ↦ rw (d, t) (rw d (all_due-all_treated now slots))
    | inr t ↦ rw (d, t) (rw d (all_due-all_treated now slots))
  ]
]
  where
    never : (b : Bool) → (b && false) ≡ false
    never b = ground arith

is_addressed-treated : (now : ℕ) (r : HostRecord) → is_addressed (treated now r) ≡ is_addressed r
is_addressed-treated now r = ground arith

AllSlotsAddressed-all_treated :
    (now : ℕ) (slots : Slots) → AllSlotsAddressed slots → AllSlotsAddressed (all_treated now slots)
AllSlotsAddressed-all_treated now [] a = a
AllSlotsAddressed-all_treated now (none ∷ slots) a = AllSlotsAddressed-all_treated now slots a
AllSlotsAddressed-all_treated now (some r ∷ slots) a =
    (is_addressed-treated now r ∙ a.0, AllSlotsAddressed-all_treated now slots a.1)

length-all_treated : (now : ℕ) (slots : Slots) → length (all_treated now slots) ≡ length slots
length-all_treated now [] = refl
length-all_treated now (none ∷ slots) = omega (arith, length-all_treated now slots)
length-all_treated now (some r ∷ slots) = omega (arith, length-all_treated now slots)

EmptyFrom-all_treated :
    (now n : ℕ) (slots : Slots) → EmptyFrom n slots → EmptyFrom n (all_treated now slots)
EmptyFrom-all_treated now n [] e = tt
EmptyFrom-all_treated now zero (none ∷ slots) e = (refl, EmptyFrom-all_treated now zero slots e.1)
EmptyFrom-all_treated now zero (some r ∷ slots) e = cc (e.0)
EmptyFrom-all_treated now (suc n) (none ∷ slots) e = EmptyFrom-all_treated now n slots e
EmptyFrom-all_treated now (suc n) (some r ∷ slots) e = EmptyFrom-all_treated now n slots e

IsLaidOut-all_treated :
    (now : ℕ) (v : Vector) → IsLaidOut v → IsLaidOut (record v { slots = all_treated now v.slots })
IsLaidOut-all_treated now v w = record {
  sized = length-all_treated now v.slots ∙ w.sized;
  filled = w.filled;
  chunked = w.chunked;
  nonempty = w.nonempty;
  empty = EmptyFrom-all_treated now v.fill v.slots w.empty;
  started = w.started;
}

-- When the system grants everything and the script is there, two enumerations with
-- `_records_callback_action_new`, one after the other on a laid out vector whose records have
-- addresses of more than two bytes, both succeed, and the second one runs the script for no record.
pub records_enumerate_again :
    (a b : ActionEnv) (e f : Env) (s : Actions) (v : Vector)
    → IsReady a
    → IsReady b
    → IsServing e
    → IsServing f
    → IsLaidOut v
    → IsRunning s.client
    → AllSlotsAddressed v.slots
    → (t : Actions) × (u : Actions) × (w : Vector) × (x : Vector) × (records_enumerate
          (records_callback_action_new a)
          e
          s
          v
        ≡ ret (t, w, ok))
      × (records_enumerate (records_callback_action_new b) f t w ≡ ret (u, x, ok))
      × (u.commands ≡ t.commands)
records_enumerate_again a b e f s v ra rb se sf l run h =
    let (t, k, g) = records_enumerate-Ran a e s v ra se l run h in
    let w = record v { slots = all_treated a.now v.slots } in
    let (u, k', g') =
      records_enumerate-Ran b f t w rb sf (IsLaidOut-all_treated a.now v l) g.running
        (AllSlotsAddressed-all_treated a.now v.slots h) in
    let none_due = all_due-all_treated a.now v.slots in
    (
      t,
      u,
      w,
      record w { slots = all_treated b.now w.slots },
      k,
      k',
      g'.commands ∙ ap (λ rs. t.commands ++ new_commands b rs) none_due ∙ append-nil t.commands,
    )
