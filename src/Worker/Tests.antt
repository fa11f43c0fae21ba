-- ===== src/Worker/Tests.antt =====
-- A run of src/network/srv/worker.c on what a queue with one record sends.
use agentsmith.Base.{true, [], ◌∷◌, none, some, ◌==◌, refl, inl, arith, replicate}
use agentsmith.Base.Cstring.{c_str}
use agentsmith.Slots.{start, unstarted}
use agentsmith.Exclude.Address.{contains}
use agentsmith.Queue.{Queue, RoundEnv, connects}
use agentsmith.Samples.{
  serving, serving-IsServing, address, attack, attack-IsHostRecord, attacked, attacked-IsValid,
}
use agentsmith.Worker.{Tables, Peer, Accepted}
use agentsmith.Worker.Serving.{IsAcceptable}
use agentsmith.Worker.Delivered.{Delivered, worker_round-Delivered}

abbrev backlog : Queue
backlog = record {
  agent = record { supported = true; sockaddr = replicate 16 2 };
  head = attack ∷ [];
}

-- The second try connects.
abbrev second : RoundEnv
second = record { socket = λ i. true; connect = λ i. i == 2; handshake = true }

abbrev trusting : Peer
trusting = record {
  remote_authoritative = 1;
  inet = record { pton4 = λ text. none; pton6 = λ text. none };
  host = address;
  exclude = serving;
  records = serving;
}

abbrev accepted : Accepted
accepted = record { sem_wait = 0; select = some 1; isset = true; handshake = true }

abbrev tables : Tables
tables = record { vector = attacked; rules = start unstarted }

attack-IsAcceptable : IsAcceptable trusting tables.rules attack
unfolding contains
attack-IsAcceptable = record { closed = refl; due = refl; welcome = inl (omega arith) }

worker_round-Delivered_example : Delivered second 3 backlog trusting accepted 4 tables
unfolding connects c_str
worker_round-Delivered_example =
    worker_round-Delivered second 3 backlog trusting accepted 4 tables refl refl (refl, tt)
      (attack-IsHostRecord, tt)
      (record { granted = refl; ready = (0, refl); isset = refl; shaken = refl }) (omega arith)
      serving-IsServing attacked-IsValid (attack-IsAcceptable, tt)
