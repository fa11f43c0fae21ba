-- ===== src/Queue/Worker.antt =====
-- The rounds of `_client_queue_worker` of src/network/cli/clientqueue.c: what is sent, in what order, and
-- how often it connects.
use agentsmith.Base.{
  ℕ, zero, suc, ◌+◌, ◌≤◌, ◌<◌, true, false, ◌&&◌, List, [], ◌∷◌, map, length, ◌≡◌, refl, arith,
  Bool-cases, inl, inr,
}
use agentsmith.Base.Outcome.{ret}
use agentsmith.Base.Cstring.{Bytes}
use agentsmith.Records.{HostRecord}
use agentsmith.Wire.{net_buff_to_command, remote_command_size}
use agentsmith.Wire.Chunks.{flat}
use agentsmith.Wire.RoundTrip.{
  IsHostRecord, chunks, net_command_to_buff-flat, length-net_command_to_buff,
  net_buff_to_command-net_command_to_buff,
}
use agentsmith.Queue.{Queue, RoundEnv, add_command, connects, send_all, worker_round}
use agentsmith.Queue.Append.{AllAddressed}

abbrev pub AllHostRecord : List HostRecord → Type 0
AllHostRecord [] = Unit
AllHostRecord (r ∷ rs) = IsHostRecord r × AllHostRecord rs

-- What a receiver reads from the buffers.
abbrev pub received : List Bytes → List (ℕ × HostRecord × ℕ)
received sent = map net_buff_to_command sent

abbrev pub announced : HostRecord → ℕ × HostRecord × ℕ
announced r = (add_command, r, remote_command_size)

-- Every buffer is one command.
abbrev pub AllCommands : List Bytes → Type 0
AllCommands [] = Unit
AllCommands (b ∷ bs) = (length b ≡ remote_command_size) × AllCommands bs

pub send_all-received :
    (rs : List HostRecord)
    → AllAddressed rs
    → AllHostRecord rs
    → (sent : List Bytes) × (send_all rs ≡ ret sent)
      × (received sent ≡ map announced rs)
      × AllCommands sent
unfolding send_all
send_all-received [] a w = ([], refl, refl, tt)
send_all-received (r ∷ rs) a w =
    let (buff, h, k) = net_buff_to_command-net_command_to_buff add_command r (omega arith) w.0 in
    let (sent, h', k', l) = send_all-received rs a.1 w.1 in
    (
      buff ∷ sent,
      rw a.0 (rw (h, h') refl),
      rw (k, k') refl,
      (length-net_command_to_buff add_command r w.0 h, l),
    )

-- On records with an address of more than two bytes the loop over the entries returns.
pub send_all_returns :
    (rs : List HostRecord) → AllAddressed rs → (sent : List Bytes) × (send_all rs ≡ ret sent)
unfolding send_all
send_all_returns [] a = ([], refl)
send_all_returns (r ∷ rs) a =
    let (sent, h) = send_all_returns rs a.1 in
    (
      flat (chunks add_command r) ∷ sent,
      rw (a.0) (rw (net_command_to_buff-flat add_command r) (rw h refl)),
    )

-- A round of the worker that connects sends the records of the queue, which a receiver reads as ADD
-- commands for these records in their order, and leaves the queue empty. The records have to fit
-- their members and have an address of more than two bytes.
pub worker_round-received :
    (e : RoundEnv) (tries : ℕ) (q : Queue)
    → connects e 0 tries ≡ true
    → e.handshake ≡ true
    → AllAddressed q.head
    → AllHostRecord q.head
    → (sent : List Bytes) × (worker_round e tries q ≡ ret (sent, record q { head = [] }))
      × (received sent ≡ map announced q.head)
unfolding worker_round
worker_round-received e tries q c h a w =
    let (sent, k, l, _) = send_all-received q.head a w in (sent, rw (c, h, k) refl, l)

-- When the worker connects, one of the tries from the next one to the last one allowed has succeeded,
-- with a socket and a connection.
pub connects-some :
    (e : RoundEnv) (tried left : ℕ)
    → connects e tried left ≡ true
    → (i : ℕ) × (tried < i) × (i ≤ tried + left) × (e.socket i && e.connect i ≡ true)
unfolding connects
connects-some e tried zero h = cc
connects-some e tried (suc left) h =
    elim (Bool-cases (e.socket (tried + 1) && e.connect (tried + 1))) [
      | inl k ↦ (tried + 1, omega arith, omega arith, k)
      | inr k ↦
          let (i, lo, hi, s) = connects-some e (tried + 1) left (rw k at h) in
          (i, omega arith, omega arith, s)
    ]

-- A try that succeeds, from the next one to the last one allowed, makes the worker connect.
pub connects-true :
    (e : RoundEnv) (tried left i : ℕ)
    → tried < i
    → i ≤ tried + left
    → e.socket i && e.connect i ≡ true
    → connects e tried left ≡ true
unfolding connects
connects-true e tried zero i lo hi s = absurd (omega arith)
connects-true e tried (suc left) i lo hi s =
    elim (Bool-cases (e.socket (tried + 1) && e.connect (tried + 1))) [
      | inl k ↦ rw k
      | inr k ↦ rw k (connects-true e (tried + 1) left i (later k) (omega arith) s)
    ]
  where
    later : (e.socket (tried + 1) && e.connect (tried + 1)) ≡ false → tried + 1 < i
    later k = ground arith
