-- ===== src/Queue/Tests.antt =====
-- Runs of src/network/cli/clientqueue.c on a queue with one record.
use agentsmith.Base.{
  true, false, not, List, [], ◌∷◌, ◌++◌, ◌==◌, ◌≡◌, ◌≢◌, refl, ◌⊎◌, arith, replicate,
}
use agentsmith.Base.Outcome.{ret, die, undefined, ok, err}
use agentsmith.Base.Cstring.{Bytes, c_str}
use agentsmith.Records.{HostRecord, localhost}
use agentsmith.Wire.RoundTrip.{IsHostRecord}
use agentsmith.Queue.{Agent, Queue, QueueEnv, RoundEnv, is_empty, client_queue_append, worker_round}
use agentsmith.Queue.Append.{IsGranting, client_queue_append_cases}
use agentsmith.Tls.Handshake.{HandshakeEnv}
use agentsmith.Queue.Connection.{Locals, ConnectionEnv, connected_round}
use agentsmith.Queue.Rounds.{plain, leaks, Balanced, connected_round-Balanced}
use agentsmith.Queue.History.{at_rest, batch_of, History, begin, append, round, Fifo, History-Fifo}
use agentsmith.Queue.Sending.{WriteEnv, Progress, worker_turn-Turned}

abbrev granting : QueueEnv
granting = record { lock = 0; entry = λ i. true; copy = λ i. true }

abbrev without_entry : QueueEnv
without_entry = record granting { entry = λ i. false }

abbrev sender : HostRecord
sender = record {
  origin = localhost ++ replicate 37 0;
  ipaddr = b':' ∷ b':' ∷ b'1' ∷ replicate 43 0;
  firstseen = 1_300_000_000;
  lastseen = 0;
  purge_after = 3600;
  time_interval = 60;
  occurrences = 2;
  action_threshold = 3;
  remove = 0;
  processed = 0;
}

abbrev agent : Agent
agent = record { supported = true; sockaddr = replicate 16 2 }

abbrev waiting : Queue
waiting = record { agent = agent; head = sender ∷ [] }

sender-IsHostRecord : IsHostRecord sender
sender-IsHostRecord = record {
  origin_size = refl;
  ipaddr_size' = refl;
  firstseen_lt = omega arith;
  lastseen_lt = omega arith;
  purge_after_lt = omega arith;
  time_interval_lt = omega arith;
  occurrences_lt = omega arith;
  action_threshold_lt = omega arith;
  remove_lt = omega arith;
  processed_lt = omega arith;
}

granting-IsGranting : IsGranting granting
granting-IsGranting = record { locks = refl; entries = λ i. refl; copies = λ i. refl }

-- The third try connects.
abbrev late : RoundEnv
late = record { socket = λ i. true; connect = λ i. i == 3; handshake = true }

client_queue_append_cases_example :
    (client_queue_append without_entry waiting (sender ∷ [])
      ≡ ret (record waiting { head = sender ∷ sender ∷ [] }, ok))
    ⊎ ((client_queue_append without_entry waiting (sender ∷ []) ≡ ret (waiting, err))
        × (without_entry.lock ≢ 0))
    ⊎ (client_queue_append without_entry waiting (sender ∷ []) ≡ die 1)
    ⊎ ((client_queue_append without_entry waiting (sender ∷ []) ≡ undefined)
        × (is_empty waiting.head ≡ false))
unfolding c_str
client_queue_append_cases_example =
    client_queue_append_cases without_entry waiting sender [] (refl, tt)

abbrev shaking : HandshakeEnv
shaking = record { ssl_new = true; bio_new_socket = true; shakes = true }

-- The third try connects, and the handshake succeeds.
abbrev late_connection : ConnectionEnv
late_connection = record {
  socket = λ i. true;
  connect = λ i. i == 3;
  handshake = shaking;
  context = true;
}

abbrev one_entry : Locals
one_entry = record at_rest { entries = 1 }

connected_round-Balanced_example :
    (w' : Locals) × (sent : List Bytes) × (connected_round late_connection 5 one_entry waiting
      ≡ ret (w', sent, record waiting { head = [] }))
    × (worker_round (plain late_connection) 5 waiting ≡ ret (sent, record waiting { head = [] }))
    × Balanced late_connection 5 one_entry w' waiting
unfolding c_str
connected_round-Balanced_example =
    connected_round-Balanced late_connection 5 0 one_entry waiting (omega arith) refl refl
      (refl, tt)

-- Two sockets are left open.
two_left : leaks late_connection 0 5 ≡ 2
unfolding leaks
two_left = refl

-- The second of two writes fails, and the worker is cancelled behind it.
abbrev interrupted : WriteEnv
interrupted = record { whole = λ i. i == 0; cancels = λ i. i == 1 }

accepting_more :
    client_queue_append granting
      (record { agent = agent; head = [] })
      (sender ∷ sender ∷ sender ∷ [])
    ≡ ret (record waiting { head = sender ∷ sender ∷ sender ∷ [] }, ok)
unfolding client_queue_append c_str
accepting_more = refl

-- Three records are accepted, and the worker has a round.
history :
    (w : Locals) × (p : Progress) × History agent 5
      (not p.cancelled)
      w
      (record waiting { head = [] })
      (sender ∷ sender ∷ sender ∷ [])
      (batch_of late_connection interrupted 5
          (record waiting { head = sender ∷ sender ∷ sender ∷ [] })
          p
        ∷ [])
unfolding c_str
history =
    let (w, p, h, _) =
      worker_turn-Turned late_connection interrupted 5 (record at_rest { entries = 3 })
        (record waiting { head = sender ∷ sender ∷ sender ∷ [] }) (omega arith) refl refl
        (refl, (refl, (refl, tt))) in
    (
      w,
      p,
      round (append begin granting (sender ∷ sender ∷ sender ∷ []) accepting_more) late_connection
          interrupted refl h,
    )

History-Fifo_example :
    Fifo
      (not history.1.cancelled)
      history.0
      (record waiting { head = [] })
      (sender ∷ sender ∷ sender ∷ [])
      (batch_of late_connection interrupted 5
          (record waiting { head = sender ∷ sender ∷ sender ∷ [] })
          history.1
        ∷ [])
History-Fifo_example = History-Fifo {tries = 5} (omega arith) history.2
