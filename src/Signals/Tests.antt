-- ===== src/Signals/Tests.antt =====
-- SIGUSR2 on a vector with one record, and the maintenance after it.
use agentsmith.Base.{ℕ, ◌+◌, true, false, [], Option, none, some, ◌≡◌, refl}
use agentsmith.Base.Outcome.{Outcome, ret}
use agentsmith.Slots.{start, unstarted}
use agentsmith.Records.{HostRecord}
use agentsmith.Records.Maintenance.{notify}
use agentsmith.Samples.{serving, serving-IsServing, attacked, attacked-IsValid}
use agentsmith.Signals.{Process, SignalEnv}
use agentsmith.Signals.Purge.{Purged, usr2-Purged}

abbrev process : Process
process = record { vector = attacked; rules = start unstarted; stop = false; printed = [] }

abbrev granting : SignalEnv
granting = record {
  thread = true;
  call = serving;
  calloc = true;
  inet = record { pton4 = λ text. none; pton6 = λ text. none };
  exclude = none;
  file = none;
}

abbrev counting : Option (ℕ → HostRecord → Outcome ℕ)
counting = some (λ n r. ret (n + 1))

counting_total : (n : ℕ) (r : HostRecord) → notify counting n r ≡ ret (n + 1)
unfolding notify
counting_total n r = refl

usr2-Purged_example : Purged counting (λ n r. n + 1) granting serving 0 process
usr2-Purged_example =
    usr2-Purged counting (λ n r. n + 1) counting_total granting serving 0 process refl
      serving-IsServing serving-IsServing attacked-IsValid
