-- ===== src/Queue/Sending.antt =====
-- The loop of `_client_queue_worker` in src/network/cli/clientqueue.c over the entries, with the results of `SSL_write`
-- and the point at which the worker can be cancelled.
use agentsmith.Base.{
  ℕ, ◌+◌, ◌-◌, ◌<◌, Bool, true, false, ◌&&◌, List, [], ◌∷◌, ◌++◌, ◌≡◌, refl, ap, ◌∙◌, ◌⊎◌, inl, inr,
  if◌then◌else◌, Bool-cases, length,
}
use agentsmith.Base.Outcome.{Outcome, ret, ◌>>=◌, ◌>>◌, ok, err, assert}
use agentsmith.Base.Cstring.{Bytes}
use agentsmith.Records.{HostRecord}
use agentsmith.Wire.{net_command_to_buff, remote_command_size}
use agentsmith.Wire.Chunks.{flat}
use agentsmith.Wire.RoundTrip.{chunks, net_command_to_buff-flat}
use agentsmith.Tls.Handshake.{shook, closed, opened, netssl_client, netssl_client_cases}
use agentsmith.Queue.{Queue, add_command, is_addressed, connects, send_all}
use agentsmith.Queue.Append.{AllAddressed}
use agentsmith.Queue.Connection.{
  Locals, ConnectionEnv, try_connect, close, disintegrate_queue, shut_down,
}
use agentsmith.Queue.Rounds.{plain, try_connect-Tried, disintegrate_queue_lem}

-- Whether `SSL_write` puts the i-th buffer on the wire whole, and whether `pthread_testcancel` behind it ends the
-- worker.
pub record WriteEnv : Type 0 where
  pub whole : ℕ → Bool
  pub cancels : ℕ → Bool

-- How far the loop has come: the entries that were handled, the buffers handed to `SSL_write`, those of them
-- that it wrote whole, the entries that were not reached, and whether the worker was cancelled.
pub record Progress : Type 0 where
  pub handled : List HostRecord
  pub handed : List Bytes
  pub written : List Bytes
  pub left : List HostRecord
  pub cancelled : Bool

abbrev pub nothing_sent : Progress
nothing_sent = record { handled = []; handed = []; written = []; left = []; cancelled = false }

-- One entry before the others. A failed write is only logged.
abbrev pub before : Bool → HostRecord → Bytes → Progress → Progress
before whole r buff p = record p {
  handled = r ∷ p.handled;
  handed = buff ∷ p.handed;
  written = if whole then buff ∷ p.written else p.written;
}

-- The loop, from the i-th entry on.
unfoldable pub process_queue : WriteEnv → ℕ → List HostRecord → Outcome Progress
process_queue a i [] = ret nothing_sent
process_queue a i (r ∷ rs) =
    let rest = process_queue a (i + 1) rs in
    (do
      assert (is_addressed r)
      (buff, n) ← net_command_to_buff add_command r remote_command_size
      p ← if a.cancels i then ret (record nothing_sent { left = rs; cancelled = true }) else rest
      ret (before (a.whole i) r buff p))

-- What a worker that is not cancelled does with the connection behind the loop.
abbrev pub leave : Bool → Locals → Locals
leave true w = w
leave false w = close (shut_down w)

-- Behind the connection.
unfoldable pub talk_through :
    ConnectionEnv → WriteEnv → List HostRecord → Locals → Outcome (Locals × Progress)
unfolding process_queue
talk_through e a taken w = do
  (session, r) ← netssl_client e.handshake w.sockfd e.context w.session
  let w' = record w { session = session }
  elim r [
    | err ↦ ret (close (shut_down w'), nothing_sent)
    | ok ↦ do
      p ← process_queue a 0 taken
      ret (leave p.cancelled (disintegrate_queue p.handled w'), p)
  ]

-- The round, from where the queue is locked and not empty; the unlock succeeds.
unfoldable pub worker_turn :
    ConnectionEnv → WriteEnv → ℕ → Locals → Queue → Outcome (Locals × Progress × Queue)
unfolding talk_through
worker_turn e a tries w q = do
  let q' = record q { head = [] }
  let (w', connected) = try_connect e 0 tries w
  if connected
      then (do (w'', p) ← talk_through e a q.head w'; ret (w'', p, q'))
      else ret (close (disintegrate_queue q.head w'), nothing_sent, q')

-- The buffers that are written whole, by the answers from the i-th on.
abbrev pub picked : (ℕ → Bool) → ℕ → List Bytes → List Bytes
picked whole i [] = []
picked whole i (b ∷ bs) = let rest = picked whole (i + 1) bs in if whole i then b ∷ rest else rest

-- The entries up to the first behind which the worker is cancelled, or all.
abbrev pub until_cancel : (ℕ → Bool) → ℕ → List HostRecord → List HostRecord
until_cancel cancels i [] = []
until_cancel cancels i (r ∷ rs) =
    let rest = until_cancel cancels (i + 1) rs in r ∷ (if cancels i then [] else rest)

-- The handled entries are the first of those that were taken, up to the one behind which the worker is cancelled, if any. The
-- buffers handed over are theirs, in their order, and those that were written are picked by the answers.
pub record Through (a : WriteEnv) (i : ℕ) (rs : List HostRecord) (p : Progress) : Type 0 where
  pub splits : p.handled ++ p.left ≡ rs
  pub buffers : send_all p.handled ≡ ret p.handed
  pub stops : p.handled ≡ until_cancel a.cancels i rs
  pub wire : p.written ≡ picked a.whole i p.handed
  pub ends : (p.cancelled ≡ true) ⊎ (p.left ≡ [])

pub process_queue-Through :
    (a : WriteEnv) (i : ℕ) (rs : List HostRecord)
    → AllAddressed rs
    → (p : Progress) × (process_queue a i rs ≡ ret p) × Through a i rs p
unfolding process_queue send_all
process_queue-Through a i [] w = (
  nothing_sent,
  refl,
  record { splits = refl; buffers = refl; stops = refl; wire = refl; ends = inr refl },
)
process_queue-Through a i (r ∷ rs) w =
    let buff = flat (chunks add_command r) in
    let sends = net_command_to_buff-flat add_command r in
    elim (Bool-cases (a.cancels i)) [
      | inl c ↦ (
        before (a.whole i) r buff (record nothing_sent { left = rs; cancelled = true }),
        rw w.0 (rw sends (rw c refl)),
        record {
          splits = refl;
          buffers = rw w.0 (rw sends refl);
          stops = rw c refl;
          wire = refl;
          ends = inl refl;
        },
      )
      | inr c ↦
          let (p, h, t) = process_queue-Through a (i + 1) rs w.1 in
          (
            before (a.whole i) r buff p,
            rw w.0 (rw sends (rw (c, h) refl)),
            record {
              splits = ap (λ x. r ∷ x) t.splits;
              buffers = rw w.0 (rw sends (rw t.buffers refl));
              stops = rw c (ap (λ x. r ∷ x) t.stops);
              wire = ap (λ x. if a.whole i then buff ∷ x else x) t.wire;
              ends = t.ends;
            },
          )
    ]

leave-entries : (b : Bool) (w : Locals) → (leave b w).entries ≡ w.entries
leave-entries true w = refl
leave-entries false w = elim (Bool-cases w.session.ssl) [ inl h ↦ rw h refl | inr h ↦ rw h refl ]

-- What is left behind the connection. The entries are sent if the handshake succeeds.
record Processed (e : ConnectionEnv) (a : WriteEnv) (taken : List HostRecord) (w w' : Locals)
    (p : Progress) : Type 0 where
  sent :
      ((shook e.handshake ≡ true) × Through a 0 taken p)
      ⊎ ((shook e.handshake ≡ false) × (p ≡ nothing_sent))
  session : (p.cancelled ≡ true) ⊎ (w'.session ≡ closed 0)
  entries : w'.entries ≡ (if shook e.handshake then w.entries - length p.handled else w.entries)

talk_through-Processed :
    (e : ConnectionEnv) (a : WriteEnv) (taken : List HostRecord) (w : Locals)
    → e.context ≡ true
    → w.sockfd ≡ true
    → w.session ≡ closed 0
    → AllAddressed taken
    → (w' : Locals) × (p : Progress) × (talk_through e a taken w ≡ ret (w', p))
      × Processed e a taken w w' p
unfolding talk_through
talk_through-Processed e a taken w x k s ad =
    let starts : netssl_client e.handshake w.sockfd e.context w.session
        ≡ (if shook e.handshake then ret (opened 1, ok) else ret (closed 0, err)) =
      rw (x, k, s) (netssl_client_cases e.handshake 0) in
    elim (Bool-cases (shook e.handshake)) [
      | inr b ↦ (
        close (record w { session = closed 0 }),
        nothing_sent,
        rw starts (rw b (rw k refl)),
        record { sent = inr (b, refl); session = inr refl; entries = rw b refl },
      )
      | inl b ↦
          let (p, h, t) = process_queue-Through a 0 taken ad in
          let w1 : Locals = record w { session = opened 1 } in
          (
            leave p.cancelled (disintegrate_queue p.handled w1),
            p,
            rw starts (rw b (rw h refl)),
            record {
              sent = inl (b, t);
              session = elim (Bool-cases p.cancelled) [
                | inl c ↦ inl c
                | inr c ↦ inr (rw c (rw (disintegrate_queue_lem p.handled w1) refl))
              ];
              entries = rw b (
                  leave-entries p.cancelled (disintegrate_queue p.handled w1)
                  ∙ ap (λ (v : Locals). v.entries) (disintegrate_queue_lem p.handled w1));
            },
          )
    ]

-- What a round leaves: nothing is sent exactly if there is no connection or the handshake fails behind one.
pub record Turned (e : ConnectionEnv) (a : WriteEnv) (tries : ℕ) (w w' : Locals) (q : Queue)
    (p : Progress) : Type 0 where
  pub sent :
      ((connects (plain e) 0 tries && shook e.handshake ≡ true) × Through a 0 q.head p)
      ⊎ ((connects (plain e) 0 tries && shook e.handshake ≡ false) × (p ≡ nothing_sent))
  pub session : (p.cancelled ≡ true) ⊎ (w'.session ≡ closed 0)
  pub entries : w'.entries ≡ (
      if connects (plain e) 0 tries
      then (if shook e.handshake then w.entries - length p.handled else w.entries)
      else w.entries - length q.head)

pub worker_turn-Turned :
    (e : ConnectionEnv) (a : WriteEnv) (tries : ℕ) (w : Locals) (q : Queue)
    → 0 < tries
    → e.context ≡ true
    → w.session ≡ closed 0
    → AllAddressed q.head
    → (w' : Locals) × (p : Progress) × (worker_turn e a tries w q
        ≡ ret (w', p, record q { head = [] }))
      × Turned e a tries w w' q p
unfolding worker_turn
worker_turn-Turned e a tries w q t x s ad =
    let k = try_connect-Tried e 0 tries w in
    let w1 = (try_connect e 0 tries w).0 in
    elim (Bool-cases (connects (plain e) 0 tries)) [
      | inr c ↦ (
        close (disintegrate_queue q.head w1),
        nothing_sent,
        rw (k.connected ∙ c) refl,
        record {
          sent = inr (rw c refl, refl);
          session = inr (rw (disintegrate_queue_lem q.head w1) (k.session ∙ s));
          entries = rw c (rw (disintegrate_queue_lem q.head w1) (rw k.entries refl));
        },
      )
      | inl c ↦
          let (w2, p, h, d) =
            talk_through-Processed e a q.head w1 x (k.sockfd (k.connected ∙ c)) (k.session ∙ s)
              ad in
          (
            w2,
            p,
            rw (k.connected ∙ c) (rw h refl),
            record {
              sent = rw c d.sent;
              session = d.session;
              entries = rw c (
                  d.entries
                  ∙ ap (λ n. if shook e.handshake then n - length p.handled else n) k.entries);
            },
          )
    ]
