-- ===== src/Worker/Delivered.antt =====
-- From one agentsmith to another: what the worker of a queue sends (src/network/cli/clientqueue.c) arrives in
-- the vector of the agent whose worker serves the connection (src/network/srv/worker.c).
use agentsmith.Base.{ℕ, suc, ◌-◌, ◌+◌, ◌<◌, true, List, [], some, map, ◌≡◌, refl, ◌∙◌, arith}
use agentsmith.Base.Outcome.{ret}
use agentsmith.Base.Cstring.{Bytes}
use agentsmith.Records.Lookup.{view, IsValid}
use agentsmith.Records.Add.{IsServing}
use agentsmith.Queue.{Queue, RoundEnv, connects, worker_round}
use agentsmith.Queue.Append.{AllAddressed}
use agentsmith.Queue.Worker.{AllHostRecord, send_all-received}
use agentsmith.Worker.{Tables, Peer, Accepted, serve_accepted, network_server_worker}
use agentsmith.Worker.Serving.{merged, AllAcceptable, serve-add_each, add_each-Inserted}

-- Data is ready on the connection and the handshake succeeds.
pub record IsOpen (a : Accepted) : Type 0 where
  pub granted : a.sem_wait ≡ 0
  pub ready : (n : ℕ) × (a.select ≡ some (suc n))
  pub isset : a.isset ≡ true
  pub shaken : a.handshake ≡ true

-- The blocks that were sent, and the tables of the receiver when it has served them.
pub record Delivered (e : RoundEnv) (tries : ℕ) (q : Queue) (p : Peer) (a : Accepted) (sem : ℕ)
    (t : Tables) : Type 0 where
  pub sent : List Bytes
  pub after : Tables
  pub sends : worker_round e tries q ≡ ret (sent, record q { head = [] })
  pub serves : network_server_worker p a sem t (map some sent) ≡ ret (sem, after)
  pub valid : IsValid after.vector
  pub same_rules : after.rules ≡ t.rules
  pub views : (j : Bytes) → view after.vector j ≡ merged p q.head j (view t.vector j)

-- Both systems grant everything and the connection stands. The worker of a queue sends its records, and the
-- worker of the receiver, whose vector is valid and who accepts the records, serves what was sent:
-- the queue is empty, the receiver's vector is valid, at every address it has what the records make
-- of the one that was there, in their order, and the semaphore is back at its value.
pub worker_round-Delivered :
    (e : RoundEnv) (tries : ℕ) (q : Queue) (p : Peer) (a : Accepted) (sem : ℕ) (t : Tables)
    → connects e 0 tries ≡ true
    → e.handshake ≡ true
    → AllAddressed q.head
    → AllHostRecord q.head
    → IsOpen a
    → 0 < sem
    → IsServing p.records
    → IsValid t.vector
    → AllAcceptable p t.rules q.head
    → Delivered e tries q p a sem t
unfolding worker_round network_server_worker serve_accepted
worker_round-Delivered e tries q p a sem t c h l w o s g v ok_all =
    let (sent, k, r, sizes) = send_all-received q.head l w in
    let f = add_each-Inserted p t q.head g v ok_all in
    let back : sem - 1 + 1 ≡ sem = omega arith in
    record {
      sent = sent;
      after = f.after;
      sends = rw (c, h, k) refl;
      serves =
          rw (o.granted, o.ready.1, o.isset, o.shaken)
            (rw (serve-add_each p sent q.head t sizes r ∙ f.returns, back) refl);
      valid = f.valid;
      same_rules = f.same_rules;
      views = f.views;
    }
