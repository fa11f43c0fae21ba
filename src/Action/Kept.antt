-- ===== src/Action/Kept.antt =====
-- Whatever the system answers, the rounds of the two threads of src/threads.c keep the vector valid and the client
-- within its bounds.
use agentsmith.Base.{
  [], ◌∷◌, ◌++◌, none, some, ◌==◌, ◌≡◌, ◌≢◌, refl, ◌⊎◌, inl, inr, if◌then◌else◌, Bool-cases,
}
use agentsmith.Base.Outcome.{
  ret, Retval, err, Env, IfReturns, bind-IfReturns, assert-IfReturns, weaken-IfReturns,
  ReturnsOrExits-IfReturns, Passes, bind-Passes, ReturnsOrExits-Passes,
}
use agentsmith.Records.{HostRecord, Vector}
use agentsmith.Records.Lookup.{key, IsValid}
use agentsmith.Records.Maintenance.{Slots, notify, records_enumerate, records_maintenance}
use agentsmith.Records.Sweeping.{reports}
use agentsmith.Records.Shrinking.{Maintained, records_maintenance-Maintained}
use agentsmith.Records.Kept.{records_enumerate-Kept}
use agentsmith.Queue.{is_addressed}
use agentsmith.Client.{Client, client_queue_flush, client_queue_record}
use agentsmith.Client.Kept.{
  IsBounded, Bounded, client_queue_flush-Bounded, client_queue_record-Bounded,
}
use agentsmith.Action.{
  AcType, new, remove, ActionEnv, Actions, is_local, informs, relay, command, do_action, is_due,
  is_stale, records_callback_action_new, records_callback_action_removal, action_round,
  maintenance_round,
}

relay-IsBounded :
    (a : ActionEnv) (c : Client) (r : HostRecord) (t : AcType)
    → IsBounded c
    → IfReturns IsBounded (relay a c r t)
unfolding relay
relay-IsBounded a c r remove w = w
relay-IsBounded a c r new w = elim (Bool-cases (informs a)) [
  | inr i ↦ rw (i, IfReturns) w
  | inl i ↦ elim (Bool-cases (is_local r)) [
    | inr l ↦ rw (i, l, IfReturns) w
    | inl l ↦
        rw (i, l, IfReturns)
          (assert-IfReturns IsBounded (is_addressed r) _ (
            bind-IfReturns Bounded IsBounded (client_queue_record 2 a.queue a.memory c r) _
              (client_queue_record-Bounded 2 a.queue a.memory c r l w) (λ (c', result) k. k)))
  ]
]

abbrev pub BoundedClient : Actions → Type 0
BoundedClient s = IsBounded s.client

do_action-BoundedClient :
    (a : ActionEnv) (s : Actions) (r : HostRecord) (t : AcType)
    → BoundedClient s
    → IfReturns BoundedClient (do_action a s r t)
unfolding do_action
do_action-BoundedClient a s r t w = elim (Bool-cases a.accessible) [
  | inr h ↦ rw (h, IfReturns) w
  | inl h ↦
      rw (h, IfReturns)
        (bind-IfReturns IsBounded BoundedClient (relay a s.client r t) _
          (relay-IsBounded a s.client r t w) (λ c k. k))
]

action_new-BoundedClient :
    (a : ActionEnv) (s : Actions) (r : HostRecord)
    → BoundedClient s
    → IfReturns
        (λ (s', r', stop). BoundedClient s' × (key r' ≡ key r))
        (records_callback_action_new a s r)
unfolding records_callback_action_new
action_new-BoundedClient a s r w = elim (Bool-cases (is_due r)) [
  | inl d ↦
      rw (d, IfReturns)
        (bind-IfReturns BoundedClient _ (do_action a s r new) _
          (do_action-BoundedClient a s r new w) (λ s' k. (k, refl)))
  | inr d ↦ elim (Bool-cases (is_stale a.now r)) [
    | inl k ↦ rw (d, k, IfReturns) (w, refl)
    | inr k ↦ rw (d, k, IfReturns) (w, refl)
  ]
]

abbrev pub Steady : Actions × Vector → Type 0
Steady (s, v) = BoundedClient s × IsValid v

pub action_round-Steady :
    (a : ActionEnv) (e : Env) (s : Actions) (v : Vector)
    → BoundedClient s
    → IsValid v
    → IfReturns Steady (action_round a e s v)
unfolding action_round
action_round-Steady a e s v b w =
    bind-IfReturns (λ (s', u, r). BoundedClient s' × IsValid u) Steady
      (records_enumerate (records_callback_action_new a) e s v) _
      (records_enumerate-Kept BoundedClient (records_callback_action_new a)
        (λ s r k. action_new-BoundedClient a s r k) e s v b w)
      (λ (s', u, r) (k, w'). elim (Bool-cases (informs a)) [
        | inr i ↦ rw (i, IfReturns) (k, w')
        | inl i ↦
            rw (i, IfReturns)
              (bind-IfReturns Bounded Steady (client_queue_flush a.queue s'.client) _
                (client_queue_flush-Bounded a.queue s'.client k) (λ (c, r') k'. (k', w')))
      ])

-- What the removal callback does.
abbrev removal : ActionEnv → Actions → HostRecord → Actions
removal a s r =
    if r.processed == 0
    then s
    else (if a.accessible
        then record { client = s.client; commands = s.commands ++ command a r remove ∷ [] }
        else s)

removal_total :
    (a : ActionEnv) (s : Actions) (r : HostRecord)
    → notify (some (records_callback_action_removal a)) s r ≡ ret (removal a s r)
unfolding notify records_callback_action_removal do_action relay
removal_total a s r = elim (Bool-cases (r.processed == 0)) [
  | inl h ↦ rw h refl
  | inr h ↦ elim (Bool-cases a.accessible) [ inl k ↦ rw (h, k) refl | inr k ↦ rw (h, k) refl ]
]

removal_same : (a : ActionEnv) (s : Actions) (r : HostRecord) → (removal a s r).client ≡ s.client
removal_same a s r = elim (Bool-cases (r.processed == 0)) [
  | inl h ↦ rw h refl
  | inr h ↦ elim (Bool-cases a.accessible) [ inl k ↦ rw (h, k) refl | inr k ↦ rw (h, k) refl ]
]

reports-BoundedClient :
    (a : ActionEnv) (s : Actions) (slots : Slots)
    → BoundedClient s
    → BoundedClient (reports (removal a) s slots)
reports-BoundedClient a s [] w = w
reports-BoundedClient a s (none ∷ slots) w = reports-BoundedClient a s slots w
reports-BoundedClient a s (some r ∷ slots) w =
    reports-BoundedClient a (if r.remove == 0 then s else removal a s r) slots
      (elim (Bool-cases (r.remove == 0)) [
        | inl h ↦ rw h w
        | inr h ↦ rw h (rw (removal_same a s r) w)
      ])

-- A maintenance round fails no assertion.
pub maintenance_round-Passes :
    (a : ActionEnv) (e : Env) (s : Actions) (v : Vector)
    → IsValid v
    → Passes (maintenance_round a e s v)
unfolding maintenance_round
maintenance_round-Passes a e s v w =
    let m = records_maintenance (some (records_callback_action_removal a)) e s v in
    let k =
      records_maintenance-Maintained (some (records_callback_action_removal a)) (removal a)
        (removal_total a) e s v w in
    bind-Passes _ m _ (ReturnsOrExits-Passes _ m k) (ReturnsOrExits-IfReturns _ m k)
      (λ (s', u, r) _. tt)

pub maintenance_round-Steady :
    (a : ActionEnv) (e : Env) (s : Actions) (v : Vector)
    → BoundedClient s
    → IsValid v
    → IfReturns Steady (maintenance_round a e s v)
unfolding maintenance_round
maintenance_round-Steady a e s v b w =
    let m = records_maintenance (some (records_callback_action_removal a)) e s v in
    bind-IfReturns (λ (s', u, r). Steady (s', u)) Steady m _
      (weaken-IfReturns _ (λ (s', u, r). Steady (s', u)) m (λ (s', u, r) k. steady s' u r k)
        (ReturnsOrExits-IfReturns _ m (
          records_maintenance-Maintained (some (records_callback_action_removal a)) (removal a)
            (removal_total a) e s v w)))
      (λ (s', u, r) k. k)
  where
    steady :
        (s' : Actions) (u : Vector) (r : Retval)
        → ((e.lock ≡ 0) × (s' ≡ reports (removal a) s v.slots) × Maintained v u)
          ⊎ ((e.lock ≢ 0) × (s' ≡ s) × (u ≡ v) × (r ≡ err))
        → Steady (s', u)
    steady s' u r (inl (l, h, k)) = (rw h (reports-BoundedClient a s v.slots b), k.valid)
    steady s' u r (inr (l, h, k, _)) = (rw h b, rw k w)
