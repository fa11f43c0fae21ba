-- ===== src/Queue.antt =====
-- src/network/cli/clientqueue.c: the queue of records for one agent, and the rounds of its worker.
pub mod Append
pub mod Worker
pub mod Connection
pub mod Sending
pub mod Rounds
pub mod History
mod Tests
use agentsmith.Base.{
  ℕ, zero, suc, ◌+◌, Bool, true, false, ◌&&◌, ◌||◌, List, [], ◌∷◌, ◌++◌, ◌==◌, ltb, if◌then◌else◌,
  length,
}
use agentsmith.Base.Outcome.{
  Outcome, ret, die, aborted, undefined, ◌>>=◌, ◌>>◌, assert, Retval, ok, err,
}
use agentsmith.Base.Cstring.{Bytes, c_str}
use agentsmith.Records.{HostRecord}
use agentsmith.Wire.{net_command_to_buff, remote_command_size}

-- An agent to inform: the family and the bytes of its `sockaddr`.
pub record Agent : Type 0 where
  pub supported : Bool
  pub sockaddr : Bytes

-- `struct _client_queue`, its linked list from the head on.
pub record Queue : Type 0 where
  pub agent : Agent
  pub head : List HostRecord

-- What the system answers to `client_queue_append`: the lock, and for the i-th record whether memory
-- is found for the entry and for the record.
pub record QueueEnv : Type 0 where
  pub lock : ℕ
  pub entry : ℕ → Bool
  pub copy : ℕ → Bool

-- `assert(strlen(r->ipaddr) > 2)`
abbrev pub is_addressed : HostRecord → Bool
is_addressed r = ltb 2 (length (c_str r.ipaddr))

-- One entry. The loop for a queue that is not empty tests `queue->head` where it means `ptr->next`, so
-- an entry without memory is written through NULL there.
unfoldable pub add_entry : Bool → Bool → Bool → HostRecord → Outcome (Unit {0})
add_entry was_empty entry copy r =
    if entry
    then (if copy then assert (is_addressed r) else die 1)
    else if was_empty
    then die 1
    else undefined

-- The loop over the records, the i-th next.
unfoldable pub add_entries :
    QueueEnv → Bool → List HostRecord → List HostRecord → ℕ → Outcome (List HostRecord)
unfolding add_entry
add_entries e was_empty head [] i = ret head
add_entries e was_empty head (r ∷ rs) i = do
  add_entry was_empty (e.entry i) (e.copy i) r
  add_entries e was_empty (head ++ r ∷ []) rs (i + 1)

abbrev pub is_empty : List HostRecord → Bool
is_empty [] = true
is_empty (r ∷ rs) = false

-- `client_queue_append`; the results of the signal and of the unlock are only logged.
unfoldable pub client_queue_append : QueueEnv → Queue → List HostRecord → Outcome (Queue × Retval)
unfolding add_entries
client_queue_append e q [] = aborted
client_queue_append e q (r ∷ rs) =
    if e.lock == 0
    then (do
      head ← add_entries e (is_empty q.head) q.head (r ∷ rs) 0
      ret (record q { head = head }, ok))
    else ret (q, err)

-- `client_queue_init`: what fails ends the program. The flag says whether memory is found for the queue and
-- for the address; the numbers are the results of the three `pthread` calls.
unfoldable pub client_queue_init : Bool → ℕ → ℕ → ℕ → Agent → Outcome Queue
client_queue_init memory mutex cond create agent = do
  assert (ltb 0 (length agent.sockaddr))
  assert agent.supported
  if memory && mutex == 0 && cond == 0 && create == 0
      then ret (record { agent = agent; head = [] })
      else die 1

-- What the system answers in one round of the worker: whether `socket` and `connect` succeed at
-- each try, and whether `netssl_client` does.
pub record RoundEnv : Type 0 where
  pub socket : ℕ → Bool
  pub connect : ℕ → Bool
  pub handshake : Bool

-- The loop of the tries, with `left` of them left; they are numbered from 1.
unfoldable pub connects : RoundEnv → ℕ → ℕ → Bool
connects e tried zero = false
connects e tried (suc left) =
    let again = connects e (tried + 1) left in
    if e.socket (tried + 1) && e.connect (tried + 1) then true else again

-- ADD, the first of RemoteAgentSmithCommands.
abbrev pub add_command : ℕ
add_command = 0

-- The loop over the entries: the buffers in the order in which they are handed to `SSL_write`, for a worker that is
-- not cancelled in it. `Queue.Sending` has the results of the writes, which are only logged, and the cancelling.
unfoldable pub send_all : List HostRecord → Outcome (List Bytes)
send_all [] = ret []
send_all (r ∷ rs) = do
  assert (is_addressed r)
  (buff, n) ← net_command_to_buff add_command r remote_command_size
  rest ← send_all rs
  ret (buff ∷ rest)

-- One round of `_client_queue_worker` on a queue with entries: it takes all of them, connects in
-- `inform_retry` tries at most, and sends them. They are dropped if there is no connection.
unfoldable pub worker_round : RoundEnv → ℕ → Queue → Outcome (List Bytes × Queue)
unfolding connects send_all
worker_round e inform_retry q = do
  let q' = record q { head = [] }
  if connects e 0 inform_retry && e.handshake
      then (do sent ← send_all q.head; ret (sent, q'))
      else ret ([], q')
