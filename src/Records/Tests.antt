-- ===== src/Records/Tests.antt =====
-- Runs of src/records.c on a vector of two records, one of them flagged for removal.
use agentsmith.Base.{
  ℕ, ◌+◌, true, false, List, [], ◌∷◌, ◌++◌, Option, none, some, ◌≡◌, ◌≢◌, refl, ◌⊎◌, arith, equal,
  replicate,
}
use agentsmith.Base.Outcome.{Outcome, ret, err, Env, ReturnsOrExits}
use agentsmith.Base.Cstring.{Bytes, c_str}
use agentsmith.Config.{Config}
use agentsmith.Slots.{unstarted, start, store}
use agentsmith.Slots.Layout.{start-IsLaidOut, store-IsLaidOut}
use agentsmith.Records.{
  HostRecord, Vector, localhost, records_add_ip, records_add_record, records_remove,
}
use agentsmith.Records.Maintenance.{notify, records_maintenance}
use agentsmith.Records.Lookup.{view, IsValid}
use agentsmith.Records.Add.{Leaves, IsServing, next_ip, next_record}
use agentsmith.Records.Operations.{
  records_add_ip-Leaves, records_add_record-Leaves, records_remove-Leaves,
}
use agentsmith.Records.Sweeping.{reports}
use agentsmith.Records.History.{Call, add_ip, remove, maintain, Refined, run-Refines}
use agentsmith.Records.Shrinking.{Maintained, records_maintenance-Maintained}

abbrev system : Env
system = record { lock = 0; unlock = 0; malloc = true; copy = true; realloc = true; now = 5000 }

abbrev without_memory : Env
without_memory = record system { malloc = false; realloc = false }

abbrev config : Config
config = record {
  action_threshold = 3;
  time_interval = 60;
  purge_after = 3600;
  server = 0;
  server_timeout = 15;
  server_backlog = 5;
  maxinconnections = 10;
  inform = 0;
  inform_retry = 3;
  inform_retry_wait = 5;
  remote_authoritative = 0;
}

abbrev address_a : Bytes
address_a = b'1' ∷ b'.' ∷ b'2' ∷ b'.' ∷ b'3' ∷ b'.' ∷ b'4' ∷ []

abbrev address_b : Bytes
address_b = b':' ∷ b':' ∷ b'1' ∷ []

abbrev host : Bytes → ℕ → HostRecord
host ipaddr flag = record {
  origin = localhost ++ replicate 37 0;
  ipaddr = ipaddr ++ 0 ∷ [];
  firstseen = 4990;
  lastseen = 4995;
  purge_after = 3600;
  time_interval = 60;
  occurrences = 2;
  action_threshold = 3;
  remove = flag;
  processed = 0;
}

abbrev hosts : Vector
hosts = store (store (start unstarted) 0 (host address_a 0)) 1 (host address_b 1)

hosts-IsValid : IsValid hosts
unfolding store start unstarted c_str equal
hosts-IsValid = record {
  laid_out =
      store-IsLaidOut _ 1 _
        (store-IsLaidOut _ 0 _ (start-IsLaidOut unstarted refl refl) (omega arith)) (omega arith);
  unique = (refl, (refl, tt));
}

system-IsServing : IsServing system
system-IsServing = record { locks = refl; unlocks = refl; mallocs = refl; reallocs = refl }

abbrev counting : Option (ℕ → HostRecord → Outcome ℕ)
counting = some (λ n r. ret (n + 1))

counting_total : (n : ℕ) (r : HostRecord) → notify counting n r ≡ ret (n + 1)
unfolding notify
counting_total n r = refl

records_add_ip-Leaves_example :
    ReturnsOrExits
      (Leaves hosts address_a (some (next_ip config 5000 address_a (view hosts address_a))))
      (records_add_ip config without_memory hosts address_a)
unfolding c_str
records_add_ip-Leaves_example =
    records_add_ip-Leaves without_memory hosts hosts-IsValid config address_a (omega arith)

records_add_record-Leaves_example :
    ReturnsOrExits
      (Leaves hosts address_b (some (next_record 5000 (host address_b 0) (view hosts address_b))))
      (records_add_record without_memory hosts (host address_b 0))
unfolding c_str
records_add_record-Leaves_example =
    records_add_record-Leaves without_memory hosts hosts-IsValid (host address_b 0)

records_remove-Leaves_example :
    ReturnsOrExits (Leaves hosts address_a none) (records_remove without_memory hosts address_a)
unfolding c_str
records_remove-Leaves_example = records_remove-Leaves without_memory hosts hosts-IsValid address_a

records_maintenance-Maintained_example :
    ReturnsOrExits
      (λ (s', u, r).
        ((system.lock ≡ 0) × (s' ≡ reports (λ n r. n + 1) 7 hosts.slots) × Maintained hosts u)
        ⊎ ((system.lock ≢ 0) × (s' ≡ 7) × (u ≡ hosts) × (r ≡ err)))
      (records_maintenance counting system 7 hosts)
unfolding c_str
records_maintenance-Maintained_example =
    records_maintenance-Maintained counting (λ n r. n + 1) counting_total system 7 hosts
      hosts-IsValid

-- An address is seen, taken away, and the flagged record goes.
abbrev calls : List Call
calls = add_ip system address_a ∷ remove system address_b ∷ maintain system ∷ []

run-Refines_example : Refined config hosts (view hosts) calls
unfolding c_str
run-Refines_example =
    run-Refines config calls hosts (view hosts)
      ((system-IsServing, omega arith), (system-IsServing, (system-IsServing, tt)))
      (record { valid = hosts-IsValid; holds = λ j. refl })
