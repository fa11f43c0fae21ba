-- ===== src/Action/Rounds.antt =====
-- A round of the action thread of src/threads.c: the script runs once for every record that is due, and the
-- agents get the due records of this host.
use agentsmith.Base.{
  ℕ, zero, suc, true, ◌&&◌, List, [], ◌∷◌, ◌++◌, none, some, map, ◌≡◌, refl, sym, ap, ap₂, ◌∙◌,
  if◌then◌else◌, Bool-cases, inl, inr, append-nil, append_assoc,
}
use agentsmith.Base.Outcome.{ret, ok, Env, assert_holds}
use agentsmith.Records.{HostRecord, Vector}
use agentsmith.Records.Maintenance.{Slots, visit, records_enumerate}
use agentsmith.Slots.Find.{EmptyFrom}
use agentsmith.Slots.Layout.{IsLaidOut}
use agentsmith.Records.Add.{IsServing}
use agentsmith.Queue.{is_addressed}
use agentsmith.Client.{Client}
use agentsmith.Client.Delivery.{AllGranting, IsRunning, backlog, client_queue_record-Recorded}
use agentsmith.Action.{
  new, Command, ActionEnv, Actions, is_local, informs, relay, command, do_action, is_due, is_stale,
  records_callback_action_new,
}

-- The record as the callback leaves it.
abbrev pub treated : ℕ → HostRecord → HostRecord
treated now r =
    if is_due r
    then record r { processed = 1 }
    else if is_stale now r
    then record r { remove = 1 }
    else r

abbrev pub all_treated : ℕ → Slots → Slots
all_treated now [] = []
all_treated now (none ∷ slots) = none ∷ all_treated now slots
all_treated now (some r ∷ slots) = some (treated now r) ∷ all_treated now slots

-- The records that are due, in the order of the slots.
abbrev pub all_due : Slots → List HostRecord
all_due [] = []
all_due (none ∷ slots) = all_due slots
all_due (some r ∷ slots) = if is_due r then r ∷ all_due slots else all_due slots

-- Those of them that go to the agents.
abbrev pub relayed : ActionEnv → List HostRecord → List HostRecord
relayed a [] = []
relayed a (r ∷ rs) = if informs a && is_local r then r ∷ relayed a rs else relayed a rs

abbrev pub new_commands : ActionEnv → List HostRecord → List Command
new_commands a rs = map (λ r. command a r new) rs

-- The actions after the script has run for these records.
pub record Ran (a : ActionEnv) (s t : Actions) (rs : List HostRecord) : Type 0 where
  pub running : IsRunning t.client
  pub commands : t.commands ≡ s.commands ++ new_commands a rs
  pub backlogs : backlog t.client ≡ map (λ b. b ++ relayed a rs) (backlog s.client)

-- The script is there, the client runs, and the system grants what the client asks.
pub record IsReady (a : ActionEnv) : Type 0 where
  pub accessible : a.accessible ≡ true
  pub granting : AllGranting a.queue
  pub memory : a.memory ≡ true

map-append_nil : {A : Type 0} (bs : List (List A)) → bs ≡ map (λ b. b ++ []) bs
map-append_nil [] = refl
map-append_nil (b ∷ bs) = ap₂ (λ x xs. x ∷ xs) (sym (append-nil b)) (map-append_nil bs)

map-append_append :
    {A : Type 0} (xs ys : List A) (bs : List (List A))
    → map (λ b. b ++ ys) (map (λ b. b ++ xs) bs) ≡ map (λ b. b ++ (xs ++ ys)) bs
map-append_append xs ys [] = refl
map-append_append xs ys (b ∷ bs) =
    ap₂ (λ x zs. x ∷ zs) (append_assoc b xs ys) (map-append_append xs ys bs)

Ran-none : (a : ActionEnv) (s : Actions) → IsRunning s.client → Ran a s s []
Ran-none a s w = record {
  running = w;
  commands = sym (append-nil s.commands);
  backlogs = map-append_nil (backlog s.client);
}

relayed-cons :
    (a : ActionEnv) (r : HostRecord) (rs : List HostRecord)
    → relayed a (r ∷ []) ++ relayed a rs ≡ relayed a (r ∷ rs)
relayed-cons a r rs = elim (Bool-cases (informs a && is_local r)) [
  | inl h ↦ rw h refl
  | inr h ↦ rw h refl
]

Ran-cons :
    {a : ActionEnv} {s t u : Actions} (r : HostRecord) (rs : List HostRecord)
    → Ran a s t (r ∷ [])
    → Ran a t u rs
    → Ran a s u (r ∷ rs)
Ran-cons {a} {s} {t} {u} r rs f g = record {
  running = g.running;
  commands =
      g.commands
      ∙ ap (λ c. c ++ new_commands a rs) f.commands
      ∙ append_assoc s.commands (new_commands a (r ∷ [])) (new_commands a rs);
  backlogs =
      g.backlogs
      ∙ ap (map (λ b. b ++ relayed a rs)) f.backlogs
      ∙ map-append_append (relayed a (r ∷ [])) (relayed a rs) (backlog s.client)
      ∙ ap (λ x. map (λ b. b ++ x) (backlog s.client)) (relayed-cons a r rs);
}

-- What the switch does to the client.
relay_lem :
    (a : ActionEnv) (c : Client) (r : HostRecord)
    → IsReady a
    → IsRunning c
    → is_addressed r ≡ true
    → (d : Client) × (relay a c r new ≡ ret d)
      × IsRunning d
      × (backlog d ≡ map (λ b. b ++ relayed a (r ∷ [])) (backlog c))
unfolding relay
relay_lem a c r g w h = elim (Bool-cases (informs a)) [
  | inr i ↦ (c, rw i refl, w, rw i (map-append_nil (backlog c)))
  | inl i ↦ elim (Bool-cases (is_local r)) [
    | inr l ↦ (c, rw (i, l) refl, w, rw (i, l) (map-append_nil (backlog c)))
    | inl l ↦
        let (d, k) = client_queue_record-Recorded 0 a.queue c r g.granting w h in
        (d, rw (i, l) (rw (h, g.memory) (rw k.returns refl)), k.running, rw (i, l) k.grows)
  ]
]

do_action_lem :
    (a : ActionEnv) (s : Actions) (r : HostRecord)
    → IsReady a
    → IsRunning s.client
    → is_addressed r ≡ true
    → (t : Actions) × (do_action a s r new ≡ ret t) × Ran a s t (r ∷ [])
unfolding do_action
do_action_lem a s r g w h =
    let (d, k, v, b) = relay_lem a s.client r g w h in
    (
      record { client = d; commands = s.commands ++ command a r new ∷ [] },
      rw (g.accessible, k) refl,
      record { running = v; commands = refl; backlogs = b },
    )

abbrev pub AllSlotsAddressed : Slots → Type 0
AllSlotsAddressed [] = Unit
AllSlotsAddressed (none ∷ slots) = AllSlotsAddressed slots
AllSlotsAddressed (some r ∷ slots) = (is_addressed r ≡ true) × AllSlotsAddressed slots

all_treated-empty :
    (n : ℕ) (slots : Slots)
    → EmptyFrom zero slots
    → (all_treated n slots ≡ slots) × (all_due slots ≡ [])
all_treated-empty n [] e = (refl, refl)
all_treated-empty n (none ∷ slots) e =
    (ap (λ x. none ∷ x) (all_treated-empty n slots e.1).0, (all_treated-empty n slots e.1).1)
all_treated-empty n (some r ∷ slots) e = cc (e.0)

-- The loop over the slots below the fill.
visit-Ran :
    (a : ActionEnv) (s : Actions) (slots : Slots) (n : ℕ)
    → IsReady a
    → IsRunning s.client
    → AllSlotsAddressed slots
    → EmptyFrom n slots
    → (t : Actions) × (visit (records_callback_action_new a) s slots n
        ≡ ret (t, all_treated a.now slots))
      × Ran a s t (all_due slots)
unfolding visit records_callback_action_new
visit-Ran a s slots zero g w h e =
    let (same, nothing) = all_treated-empty a.now slots e in
    (s, rw same refl, rw nothing (Ran-none a s w))
visit-Ran a s [] (suc n) g w h e = (s, refl, Ran-none a s w)
visit-Ran a s (none ∷ slots) (suc n) g w h e =
    let (t, k, f) = visit-Ran a s slots n g w h e in (t, rw k refl, f)
visit-Ran a s (some r ∷ slots) (suc n) g w h e = elim (Bool-cases (is_due r)) [
  | inl d ↦
      let (t, k, f) = do_action_lem a s r g w h.0 in
      let (u, l, f') = visit-Ran a t slots n g f.running h.1 e in
      (u, rw d (rw k (rw l refl)), rw d (Ran-cons r (all_due slots) f f'))
  | inr d ↦ let (u, l, f') = visit-Ran a s slots n g w h.1 e in (u, rw d (rw l refl), rw d f')
]

-- When the system grants everything and the script is there, an enumeration with
-- `_records_callback_action_new` succeeds on a laid out vector whose records have addresses of more than
-- two bytes. The script runs once for each record that is due, in the order of the slots; exactly
-- those of them that come from this host join the end of every backlog, if agents are informed; and
-- every record is treated.
pub records_enumerate-Ran :
    (a : ActionEnv) (e : Env) (s : Actions) (v : Vector)
    → IsReady a
    → IsServing e
    → IsLaidOut v
    → IsRunning s.client
    → AllSlotsAddressed v.slots
    → (t : Actions) × (records_enumerate (records_callback_action_new a) e s v
        ≡ ret (t, record v { slots = all_treated a.now v.slots }, ok))
      × Ran a s t (all_due v.slots)
unfolding records_enumerate
records_enumerate-Ran a e s v g serving w run h =
    let (t, k, f) = visit-Ran a s v.slots v.fill g run h w.empty in
    (t, assert_holds v.initialized _ w.started ∙ rw (serving.locks, serving.unlocks) (rw k refl), f)
