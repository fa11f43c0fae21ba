-- ===== src/Client.antt =====
-- src/network/cli/client.c: the records to be sent, collected and then appended to every queue.
pub mod Delivery
pub mod Starting
pub mod Kept
pub mod Passing
mod Tests
use agentsmith.Base.{
  ℕ, zero, suc, ◌+◌, Bool, true, false, not, List, [], ◌∷◌, ◌++◌, ltb, leb, if◌then◌else◌, length,
}
use agentsmith.Base.Outcome.{Outcome, ret, die, undefined, ◌>>=◌, ◌>>◌, assert, Retval, ok, err}
use agentsmith.Records.{HostRecord}
use agentsmith.Queue.{Agent, Queue, QueueEnv, is_addressed, client_queue_append, client_queue_init}

-- MAXCLIENTQUEUES and HOSTRECORDVECTORLEN.
abbrev pub max_client_queues : ℕ
max_client_queues = 256

abbrev pub host_record_vector_len : ℕ
host_record_vector_len = 25

-- The statics: the queues in use, and the used part of the temporary vector.
pub record Client : Type 0 where
  pub started : Bool
  pub queues : List Queue
  pub pending : List HostRecord

-- The loop of `client_start`, with room for so many queues.
unfoldable pub start_queues : (Agent → Outcome Queue) → ℕ → List Agent → Outcome (List Queue)
start_queues init zero agents = ret []
start_queues init (suc room) [] = ret []
start_queues init (suc room) (a ∷ agents) = do
  q ← init a
  qs ← start_queues init room agents
  ret (q ∷ qs)

-- `client_start`, with the answers of the system to `client_queue_init`.
unfoldable pub client_start : Bool → ℕ → ℕ → ℕ → List Agent → Outcome (Client × Retval)
unfolding start_queues client_queue_init
client_start memory mutex cond create agents = do
  qs ← start_queues (client_queue_init memory mutex cond create) max_client_queues agents
  ret (record { started = true; queues = qs; pending = [] }, ok)

-- The first loop of `client_queue_flush`, which does not look at the results.
unfoldable pub append_to_all :
    (ℕ → QueueEnv) → List HostRecord → List Queue → ℕ → Outcome (List Queue)
unfolding client_queue_append
append_to_all e rs [] i = ret []
append_to_all e rs (q ∷ qs) i = do
  (q', r) ← client_queue_append (e i) q rs
  qs' ← append_to_all e rs qs (i + 1)
  ret (q' ∷ qs')

-- `client_queue_flush`, with the answers of the system for each queue.
unfoldable pub client_queue_flush : (ℕ → QueueEnv) → Client → Outcome (Client × Retval)
unfolding append_to_all
client_queue_flush e c = do
  assert (leb (length c.pending) host_record_vector_len)
  if not c.started then ret (c, ok) else if ltb (length c.pending) 1 then ret (c, ok) else (do
    qs ← append_to_all e c.pending c.queues 0
    ret (record c { queues = qs; pending = [] }, ok))

-- `client_queue_record`, which calls itself after a flush: on fuel, of which 2 is enough. The flag
-- says whether memory is found for the copy.
unfoldable pub client_queue_record :
    ℕ → (ℕ → QueueEnv) → Bool → Client → HostRecord → Outcome (Client × Retval)
unfolding client_queue_flush
client_queue_record zero e memory c hr = undefined
client_queue_record (suc fuel) e memory c hr = do
  assert (is_addressed hr)
  if not c.started then ret (c, err) else elim (leb host_record_vector_len (length c.pending)) [
    | true ↦ do
      (c', r) ← client_queue_flush e c
      elim r [ ok ↦ client_queue_record fuel e memory c' hr | err ↦ ret (c', err) ]
    | false ↦ if memory then ret (record c { pending = c.pending ++ hr ∷ [] }, ok) else die 1
  ]

-- `client_stop`: the queues and the records are freed, and the statics that point to them are left; neither
-- is looked at again before `client_start`, which overwrites them.
unfoldable pub client_stop : Client → Client × Retval
client_stop c = (record c { started = false }, ok)
