-- ===== src/Queue/Connection.antt =====
-- One round of `_client_queue_worker` of src/network/cli/clientqueue.c in full: what becomes of the socket, of the pointers
-- of OpenSSL and of the memory of the entries. `sent` is what is handed to `SSL_write`, and the worker is not
-- cancelled in the round; `Queue.Sending` has the results of the writes and the cancelling.
use agentsmith.Base.{ℕ, zero, suc, ◌+◌, ◌-◌, Bool, true, false, ◌&&◌, List, [], ◌∷◌, if◌then◌else◌}
use agentsmith.Base.Outcome.{Outcome, ret, ◌>>=◌, Retval, ok, err}
use agentsmith.Base.Cstring.{Bytes}
use agentsmith.Records.{HostRecord}
use agentsmith.Tls.Handshake.{Session, HandshakeEnv, netssl_client}
use agentsmith.Queue.{Queue, send_all}

-- The locals of the worker that outlive a round (whether `sockfd` is not -1, `ssl` and `sbio`), and what the process
-- has: open sockets of this worker, and entries that are allocated.
pub record Locals : Type 0 where
  pub sockfd : Bool
  pub session : Session
  pub sockets : ℕ
  pub entries : ℕ

-- Whether `socket` and `connect` succeed at each try, how the handshake goes, and whether there is a context.
pub record ConnectionEnv : Type 0 where
  pub socket : ℕ → Bool
  pub connect : ℕ → Bool
  pub handshake : HandshakeEnv
  pub context : Bool

-- `socket`: the variable gets the new one or -1.
abbrev pub open_socket : Bool → Locals → Locals
open_socket true w = record w { sockfd = true; sockets = w.sockets + 1 }
open_socket false w = record w { sockfd = false }

-- The loop of the tries, numbered from 1, with `left` of them left: a socket that cannot be connected stays open, and
-- the variable gets the next one. The flag says whether it has connected.
unfoldable pub try_connect : ConnectionEnv → ℕ → ℕ → Locals → Locals × Bool
try_connect e tried zero w = (w, false)
try_connect e tried (suc left) w =
    let w' = open_socket (e.socket (tried + 1)) w in
    let rest = try_connect e (tried + 1) left w' in
    if e.socket (tried + 1) && e.connect (tried + 1) then (w', true) else rest

-- `close(sockfd)`; the variable keeps the number.
abbrev pub close : Locals → Locals
close w = record w { sockets = if w.sockfd then w.sockets - 1 else w.sockets }

-- `_client_queue_disintegrate_queue` on what was taken.
unfoldable pub disintegrate_queue : List HostRecord → Locals → Locals
disintegrate_queue [] w = w
disintegrate_queue (r ∷ rs) w = disintegrate_queue rs (record w { entries = w.entries - 1 })

-- `SSL_free`, and both pointers are NULL. The shutdown before it changes none of this.
abbrev pub shut_down : Locals → Locals
shut_down w =
    if w.session.ssl
    then record w {
      session = record { ssl = false; sbio = false; objects = w.session.objects - 1 };
    }
    else w

-- Behind the connection: the handshake, the entries, which are freed one after the other as they are sent, and
-- the end of the connection. A failed handshake jumps over the entries.
unfoldable pub talk : ConnectionEnv → List HostRecord → Locals → Outcome (Locals × List Bytes)
talk e taken w = do
  (session, r) ← netssl_client e.handshake w.sockfd e.context w.session
  let w' = record w { session = session }
  elim r [
    | err ↦ ret (close (shut_down w'), [])
    | ok ↦ do sent ← send_all taken; ret (close (shut_down (disintegrate_queue taken w')), sent)
  ]

-- The round, from where the queue is locked and not empty; the unlock succeeds.
unfoldable pub connected_round :
    ConnectionEnv → ℕ → Locals → Queue → Outcome (Locals × List Bytes × Queue)
connected_round e tries w q = do
  let q' = record q { head = [] }
  let (w', connected) = try_connect e 0 tries w
  if connected
      then (do (w'', sent) ← talk e q.head w'; ret (w'', sent, q'))
      else ret (close (disintegrate_queue q.head w'), [], q')

-- `_client_queue_worker_cleanup`, which runs when the worker is cancelled between two rounds: the entries that wait
-- are freed.
unfoldable pub worker_cleanup : Locals → Queue → Locals
unfolding disintegrate_queue
worker_cleanup w q = disintegrate_queue q.head w

-- `client_queue_destroy`: whether the worker could be cancelled. Failures are only logged.
unfoldable pub client_queue_destroy : Bool → Locals → Queue → Locals × Retval
unfolding worker_cleanup
client_queue_destroy cancelled w q = (if cancelled then worker_cleanup w q else w, ok)
