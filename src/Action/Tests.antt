-- ===== src/Action/Tests.antt =====
-- Runs of src/threads.c on one record that is due and one that is not.
use agentsmith.Base.{ℕ, true, [], ◌∷◌, ◌++◌, ◌≡◌, refl, arith, replicate}
use agentsmith.Base.Outcome.{ret, ok, Env}
use agentsmith.Base.Cstring.{c_str}
use agentsmith.Slots.{unstarted, start, store}
use agentsmith.Slots.Layout.{IsLaidOut, start-IsLaidOut, store-IsLaidOut}
use agentsmith.Records.{HostRecord, Vector, localhost}
use agentsmith.Records.Maintenance.{records_enumerate}
use agentsmith.Records.Add.{IsServing}
use agentsmith.Client.Delivery.{IsRunning}
use agentsmith.Action.{ActionEnv, Actions, records_callback_action_new}
use agentsmith.Action.Rounds.{
  all_treated, all_due, Ran, IsReady, AllSlotsAddressed, records_enumerate-Ran,
}
use agentsmith.Action.Once.{records_enumerate_again}

abbrev system : Env
system = record { lock = 0; unlock = 0; malloc = true; copy = true; realloc = true; now = 5000 }

abbrev setup : ActionEnv
setup = record {
  action = b'/' ∷ b'a' ∷ [];
  inform = 1;
  inform_agents = true;
  accessible = true;
  now = 5000;
  queue = λ j. record { lock = 0; entry = λ i. true; copy = λ i. true };
  memory = true;
}

abbrev seen : ℕ → HostRecord
seen n = record {
  origin = localhost ++ replicate 37 0;
  ipaddr = b':' ∷ b':' ∷ b'1' ∷ replicate 43 0;
  firstseen = 4000;
  lastseen = 4500;
  purge_after = 3600;
  time_interval = 60;
  occurrences = n;
  action_threshold = 3;
  remove = 0;
  processed = 0;
}

abbrev vector : Vector
vector = store (store (start unstarted) 0 (seen 3)) 1 (seen 2)

abbrev actions : Actions
actions = record {
  client = record {
    started = true;
    queues =
        record { agent = record { supported = true; sockaddr = replicate 16 2 }; head = [] } ∷ [];
    pending = [];
  };
  commands = [];
}

setup-IsReady : IsReady setup
setup-IsReady = record {
  accessible = refl;
  granting = λ j. record { locks = refl; entries = λ i. refl; copies = λ i. refl };
  memory = refl;
}

system-IsServing : IsServing system
system-IsServing = record { locks = refl; unlocks = refl; mallocs = refl; reallocs = refl }

vector-IsLaidOut : IsLaidOut vector
unfolding store start unstarted
vector-IsLaidOut =
    store-IsLaidOut _ 1 _
      (store-IsLaidOut _ 0 _ (start-IsLaidOut unstarted refl refl) (omega arith)) (omega arith)

actions-IsRunning : IsRunning actions.client
actions-IsRunning = record { runs = refl; fits = omega arith; addressed = tt }

vector-AllSlotsAddressed : AllSlotsAddressed vector.slots
unfolding store start unstarted c_str
vector-AllSlotsAddressed = (refl, (refl, tt))

all_due-vector : all_due vector.slots ≡ seen 3 ∷ []
unfolding store start unstarted
all_due-vector = refl

records_enumerate-Ran_example :
    (t : Actions) × (records_enumerate (records_callback_action_new setup) system actions vector
      ≡ ret (t, record vector { slots = all_treated 5000 vector.slots }, ok))
    × Ran setup actions t (all_due vector.slots)
records_enumerate-Ran_example =
    records_enumerate-Ran setup system actions vector setup-IsReady system-IsServing
      vector-IsLaidOut actions-IsRunning vector-AllSlotsAddressed

records_enumerate_again_example :
    (t : Actions) × (u : Actions) × (w : Vector) × (x : Vector) × (records_enumerate
        (records_callback_action_new setup)
        system
        actions
        vector
      ≡ ret (t, w, ok))
    × (records_enumerate (records_callback_action_new setup) system t w ≡ ret (u, x, ok))
    × (u.commands ≡ t.commands)
records_enumerate_again_example =
    records_enumerate_again setup setup system system actions vector setup-IsReady setup-IsReady
      system-IsServing system-IsServing vector-IsLaidOut actions-IsRunning vector-AllSlotsAddressed
