-- ===== src/Worker.antt =====
-- src/network/srv/worker.c: the thread that serves one connection and takes the records of another agent.
pub mod Serving
pub mod Kept
pub mod Delivered
mod Tests
use agentsmith.Base.{
  ℕ, zero, suc, ◌+◌, ◌-◌, Bool, true, false, List, [], ◌∷◌, Option, none, some, ◌==◌, set,
  if◌then◌else◌, length,
}
use agentsmith.Base.Outcome.{Outcome, ret, undefined, ◌>>=◌, ◌>>◌, assert, Retval, ok, err, Env}
use agentsmith.Base.Words.{signed_le32}
use agentsmith.Base.Cstring.{Bytes, c_str, strncpy}
use agentsmith.Records.{HostRecord, Vector, ipaddr_size, records_add_record}
use agentsmith.Exclude.Address.{contains}
use agentsmith.Exclude.Rules.{Inet, RuleTable, exclude_isexcluded}
use agentsmith.Wire.{remote_command_size, net_buff_to_command}

-- The vector and the exclude list.
pub record Tables : Type 0 where
  pub vector : Vector
  pub rules : RuleTable

-- CONFIG.remote_authoritative, `inet_pton`, the address of the peer as `getnameinfo` prints it, and
-- what the system answers to `exclude_isexcluded` and to `records_add_record`.
pub record Peer : Type 0 where
  pub remote_authoritative : ℕ
  pub inet : Inet
  pub host : Bytes
  pub exclude : Env
  pub records : Env

-- The record as it is inserted: from this peer, and not yet processed.
unfoldable pub from_peer : Bytes → HostRecord → HostRecord
from_peer host r = record r {
  origin = set (strncpy ipaddr_size host) (ipaddr_size - 1) 0;
  remove = 0;
  processed = 0;
}

-- The insertion, the result of which is only logged.
unfoldable pub insert_received : Peer → Tables → HostRecord → Outcome Tables
insert_received p t r = do
  let r' = from_peer p.host r
  assert (signed_le32 r'.action_threshold r'.occurrences)
  (v, result) ← records_add_record p.records t.vector r'
  ret (record t { vector = v })

abbrev pub insert_unless : Peer → Tables → HostRecord → Retval → Outcome Tables
insert_unless p t r ok = ret t
insert_unless p t r err = insert_received p t r

-- The command ADD. An address without a NUL in its 46 bytes is read past its end.
unfoldable pub add_received : Peer → Tables → HostRecord → Outcome Tables
add_received p t r =
    if contains 0 r.ipaddr
    then (if p.remote_authoritative == 0
        then (do
          (rules, excluded) ← exclude_isexcluded p.exclude p.inet t.rules (c_str r.ipaddr)
          insert_unless p (record t { rules = rules }) r excluded)
        else insert_received p t r)
    else undefined

-- The switch on the command, and whether the loop goes on: ADD, REMOVE and INFORMATION are known.
unfoldable pub do_command : Peer → Tables → ℕ × HostRecord × ℕ → Outcome (Tables × Bool)
do_command p t (command, r, n) =
    if command == 0
    then (do t' ← add_received p t r; ret (t', true))
    else if command == 1
    then ret (t, true)
    else if command == 2
    then ret (t, true)
    else ret (t, false)

-- The loop over what `SSL_read` gives: a block of bytes, or an error. A block of another size than that of a
-- command ends it, as does the end of the connection.
unfoldable pub serve : Peer → Tables → List (Option Bytes) → Outcome Tables
serve p t [] = ret t
serve p t (none ∷ blocks) = ret t
serve p t (some block ∷ blocks) =
    if length block == remote_command_size
    then (do
      (t', more) ← do_command p t (net_buff_to_command block)
      elim more [ true ↦ serve p t' blocks | false ↦ ret t' ])
    else ret t

-- What the system answers before the loop: `sem_wait`, the results of `select` up to the first that is not
-- EINTR (a time out is 0, an error none), whether the socket is ready, and the handshake.
pub record Accepted : Type 0 where
  pub sem_wait : ℕ
  pub select : Option ℕ
  pub isset : Bool
  pub handshake : Bool

-- The part of `network_server_worker` that holds the semaphore.
unfoldable pub serve_accepted : Peer → Accepted → Tables → List (Option Bytes) → Outcome Tables
unfolding serve
serve_accepted p a t blocks = elim a.select [
  | none ↦ ret t
  | some zero ↦ ret t
  | some (suc n) ↦ if a.isset then (if a.handshake then serve p t blocks else ret t) else ret t
]

-- `network_server_worker`, with the value of the semaphore.
unfoldable pub network_server_worker :
    Peer → Accepted → ℕ → Tables → List (Option Bytes) → Outcome (ℕ × Tables)
unfolding serve_accepted
network_server_worker p a sem t blocks =
    if a.sem_wait == 0
    then (do t' ← serve_accepted p a t blocks; ret (sem - 1 + 1, t'))
    else ret (sem, t)
