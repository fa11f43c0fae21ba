-- ===== src/Client/Tests.antt =====
-- Runs of src/network/cli/client.c with two agents and one record in the vector.
use agentsmith.Base.{ℕ, true, [], ◌∷◌, ◌++◌, refl, arith, replicate}
use agentsmith.Base.Cstring.{c_str}
use agentsmith.Records.{HostRecord, localhost}
use agentsmith.Queue.{Queue, QueueEnv}
use agentsmith.Client.{Client, client_queue_record}
use agentsmith.Client.Delivery.{AllGranting, IsRunning, Recorded, client_queue_record-Recorded}

abbrev granting : ℕ → QueueEnv
granting = λ j. record { lock = 0; entry = λ i. true; copy = λ i. true }

abbrev attacker : HostRecord
attacker = record {
  origin = localhost ++ replicate 37 0;
  ipaddr = b':' ∷ b':' ∷ b'1' ∷ replicate 43 0;
  firstseen = 1_300_000_000;
  lastseen = 0;
  purge_after = 3600;
  time_interval = 60;
  occurrences = 2;
  action_threshold = 3;
  remove = 0;
  processed = 0;
}

abbrev queue : Queue
queue = record {
  agent = record { supported = true; sockaddr = replicate 16 2 };
  head = attacker ∷ [];
}

abbrev client : Client
client = record {
  started = true;
  queues = queue ∷ record queue { head = [] } ∷ [];
  pending = attacker ∷ [];
}

granting-AllGranting : AllGranting granting
granting-AllGranting = λ j. record { locks = refl; entries = λ i. refl; copies = λ i. refl }

client-IsRunning : IsRunning client
unfolding c_str
client-IsRunning = record { runs = refl; fits = omega arith; addressed = (refl, tt) }

client_queue_record-Recorded_example :
    (d : Client) × Recorded (client_queue_record 2 granting true client attacker) client d attacker
unfolding c_str
client_queue_record-Recorded_example =
    client_queue_record-Recorded 0 granting client attacker granting-AllGranting client-IsRunning
      refl
