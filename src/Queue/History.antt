-- ===== src/Queue/History.antt =====
-- The life of a queue of src/network/cli/clientqueue.c: records are appended and its worker has rounds, in any
-- order, until it is cancelled in the midst of one or destroyed. What is handed to `SSL_write`, in what order, and what
-- stays allocated.
use agentsmith.Base.{
  ℕ, ◌+◌, ◌<◌, Bool, true, false, not, ◌&&◌, List, [], ◌∷◌, ◌++◌, ◌==◌, ◌≡◌, refl, sym, ap, ◌∙◌,
  ◌⊎◌, inl, inr, arith, if◌then◌else◌, Bool-cases, length, append-nil, append_assoc, length-append,
}
use agentsmith.Base.Outcome.{
  ret, Retval, ok, err, IfReturns, bind-IfReturns, weaken-IfReturns, returned,
}
use agentsmith.Records.{HostRecord}
use agentsmith.Tls.Handshake.{closed, shook}
use agentsmith.Queue.{
  Agent, Queue, QueueEnv, is_addressed, is_empty, add_entry, add_entries, connects,
  client_queue_append,
}
use agentsmith.Queue.Append.{AllAddressed}
use agentsmith.Queue.Connection.{Locals, ConnectionEnv, worker_cleanup, client_queue_destroy}
use agentsmith.Queue.Rounds.{plain, disintegrate_queue_lem}
use agentsmith.Queue.Sending.{
  WriteEnv, Progress, nothing_sent, worker_turn, Through, Turned, worker_turn-Turned,
}

-- What a round took from the queue, whether it connected and shook hands, the answers to its writes, and how far it
-- came.
pub record Batch : Type 0 where
  pub records : List HostRecord
  pub joined : Bool
  pub shaken : Bool
  pub writes : WriteEnv
  pub progress : Progress

abbrev pub batch_of : ConnectionEnv → WriteEnv → ℕ → Queue → Progress → Batch
batch_of e a tries q p = record {
  records = q.head;
  joined = connects (plain e) 0 tries;
  shaken = shook e.handshake;
  writes = a;
  progress = p;
}

-- The locals of a worker that has not begun.
abbrev pub at_rest : Locals
at_rest = record { sockfd = false; session = closed 0; sockets = 0; entries = 0 }

-- The locals and the queue behind some appends and rounds, with the records that were accepted and the batches; the flag
-- says whether the worker lives, which a round may end.
pub data History (agent : Agent) (tries : ℕ)
    : Bool → Locals → Queue → List HostRecord → List Batch → Type 0 where
  begin : History agent tries true at_rest (record { agent = agent; head = [] }) [] []
  append :
      {b : Bool} {w : Locals} {q q' : Queue} {accepted : List HostRecord} {batches : List Batch}
      → History agent tries b w q accepted batches
      → (e : QueueEnv) (rs : List HostRecord) → client_queue_append e q rs ≡ ret (q', ok)
      → History agent tries b
          (record w { entries = w.entries + length rs })
          q'
          (accepted ++ rs)
          batches
  refuse :
      {b : Bool} {w : Locals} {q q' : Queue} {accepted : List HostRecord} {batches : List Batch}
      → History agent tries b w q accepted batches
      → (e : QueueEnv) (rs : List HostRecord) → client_queue_append e q rs ≡ ret (q', err)
      → History agent tries b w q' accepted batches
  round :
      {w w' : Locals} {q q' : Queue} {accepted : List HostRecord} {batches : List Batch}
      {p : Progress}
      → History agent tries true w q accepted batches
      → (e : ConnectionEnv) (a : WriteEnv) → e.context ≡ true
      → worker_turn e a tries w q ≡ ret (w', p, q')
      → History agent tries
          (not p.cancelled)
          w'
          q'
          accepted
          (batches ++ batch_of e a tries q p ∷ [])

abbrev pub taken : List Batch → List HostRecord
taken [] = []
taken (b ∷ bs) = b.records ++ taken bs

-- The entries of a batch that were not freed: all if the handshake failed behind a connection, and those that a
-- cancelled worker did not reach.
abbrev pub unfreed : Batch → ℕ
unfreed b = if b.joined then (if b.shaken then length b.progress.left else length b.records) else 0

-- The number of entries whose memory is lost.
abbrev pub lost_entries : List Batch → ℕ
lost_entries [] = 0
lost_entries (b ∷ bs) = unfreed b + lost_entries bs

-- A batch is handed over if the worker had connected and shaken hands, and nothing of it is otherwise.
abbrev pub IsSent : Batch → Type 0
IsSent b =
    ((b.joined && b.shaken ≡ true) × Through b.writes 0 b.records b.progress)
    ⊎ ((b.joined && b.shaken ≡ false) × (b.progress ≡ nothing_sent))

abbrev pub AllSent : List Batch → Type 0
AllSent [] = Unit
AllSent (b ∷ bs) = IsSent b × AllSent bs

taken-snoc : (bs : List Batch) (b : Batch) → taken (bs ++ b ∷ []) ≡ taken bs ++ b.records
taken-snoc [] b = append-nil b.records
taken-snoc (a ∷ bs) b =
    ap (λ x. a.records ++ x) (taken-snoc bs b) ∙ sym (append_assoc a.records (taken bs) b.records)

AllSent-snoc : (bs : List Batch) (b : Batch) → AllSent bs → IsSent b → AllSent (bs ++ b ∷ [])
AllSent-snoc [] b w h = (h, tt)
AllSent-snoc (a ∷ bs) b w h = (w.0, AllSent-snoc bs b w.1 h)

add_entry-IfReturns :
    (b entry copy : Bool) (r : HostRecord)
    → IfReturns (λ u. is_addressed r ≡ true) (add_entry b entry copy r)
unfolding add_entry
add_entry-IfReturns b true true r = elim (Bool-cases (is_addressed r)) [
  | inl h ↦ rw (h, IfReturns) h
  | inr h ↦ rw (h, IfReturns) tt
]
add_entry-IfReturns b true false r = tt
add_entry-IfReturns true false copy r = tt
add_entry-IfReturns false false copy r = tt

add_entries-IfReturns :
    (e : QueueEnv) (b : Bool) (head rs : List HostRecord) (i : ℕ)
    → IfReturns (λ full. (full ≡ head ++ rs) × AllAddressed rs) (add_entries e b head rs i)
unfolding add_entries
add_entries-IfReturns e b head [] i = (sym (append-nil head), tt)
add_entries-IfReturns e b head (r ∷ rs) i =
    bind-IfReturns (λ u. is_addressed r ≡ true) _ (add_entry b (e.entry i) (e.copy i) r) _
      (add_entry-IfReturns b (e.entry i) (e.copy i) r)
      (λ u a.
        weaken-IfReturns (λ full. (full ≡ (head ++ r ∷ []) ++ rs) × AllAddressed rs) _
          (add_entries e b (head ++ r ∷ []) rs (i + 1))
          (λ full (k, l). (k ∙ append_assoc head (r ∷ []) rs, (a, l)))
          (add_entries-IfReturns e b (head ++ r ∷ []) rs (i + 1)))

-- What an append leaves.
abbrev Joined : Queue → List HostRecord → Queue × Retval → Type 0
Joined q rs (q', ok) = (q'.head ≡ q.head ++ rs) × AllAddressed rs
Joined q rs (q', err) = q' ≡ q

client_queue_append-Joined :
    (e : QueueEnv) (q : Queue) (rs : List HostRecord)
    → IfReturns (Joined q rs) (client_queue_append e q rs)
unfolding client_queue_append
client_queue_append-Joined e q [] = tt
client_queue_append-Joined e q (r ∷ rs) = elim (Bool-cases (e.lock == 0)) [
  | inr h ↦ rw (h, IfReturns) refl
  | inl h ↦
      rw (h, IfReturns)
        (bind-IfReturns (λ full. (full ≡ q.head ++ (r ∷ rs)) × AllAddressed (r ∷ rs))
          (Joined q (r ∷ rs)) (add_entries e (is_empty q.head) q.head (r ∷ rs) 0) _
          (add_entries-IfReturns e (is_empty q.head) q.head (r ∷ rs) 0) (λ full k. k))
]

lost_entries-snoc :
    (bs : List Batch) (b : Batch) → lost_entries (bs ++ b ∷ []) ≡ lost_entries bs + unfreed b
lost_entries-snoc [] b = omega arith
lost_entries-snoc (a ∷ bs) b = omega (arith, lost_entries-snoc bs b)

-- What holds at any time.
pub record Fifo (alive : Bool) (w : Locals) (q : Queue) (accepted : List HostRecord)
    (batches : List Batch) : Type 0 where
  pub order : taken batches ++ q.head ≡ accepted
  pub sent : AllSent batches
  pub addressed : AllAddressed q.head
  pub session : (alive ≡ false) ⊎ (w.session ≡ closed 0)
  pub entries : w.entries ≡ length q.head + lost_entries batches

AllAddressed-append :
    (a b : List HostRecord) → AllAddressed a → AllAddressed b → AllAddressed (a ++ b)
AllAddressed-append [] b h k = k
AllAddressed-append (r ∷ a) b h k = (h.0, AllAddressed-append a b h.1 k)

-- What a round leaves allocated.
turn_entries :
    (e : ConnectionEnv) (a : WriteEnv) (tries n : ℕ) (w w' : Locals) (q : Queue) (p : Progress)
    → Turned e a tries w w' q p
    → w.entries ≡ length q.head + n
    → w'.entries ≡ n + unfreed (batch_of e a tries q p)
turn_entries e a tries n w w' q p t h = elim (Bool-cases (connects (plain e) 0 tries)) [
  | inr c ↦ rw c (omega (arith, h, rw c at t.entries))
  | inl c ↦ elim (Bool-cases (shook e.handshake)) [
    | inr k ↦ rw (c, k) (omega (arith, h, rw (c, k) at t.entries))
    | inl k ↦ elim t.sent [
      | inl (_, through) ↦
          rw (c, k)
            (omega (
              arith,
              h,
              rw (c, k) at t.entries,
              length-append p.handled p.left,
              ap length through.splits,
            ))
      | inr (h', _) ↦ absurd (cc (rw (c, k) at h'))
    ]
  ]
]

plus_none : (n : ℕ) → n ≡ 0 + n
plus_none n = omega arith

-- A round moves all entries to a new batch.
round-Fifo :
    (e : ConnectionEnv) (a : WriteEnv) (tries : ℕ) (w w' : Locals) (q : Queue)
    (accepted : List HostRecord) (batches : List Batch) (p : Progress)
    → Fifo true w q accepted batches
    → Turned e a tries w w' q p
    → Fifo
        (not p.cancelled)
        w'
        (record q { head = [] })
        accepted
        (batches ++ batch_of e a tries q p ∷ [])
round-Fifo e a tries w w' q accepted batches p f t =
    let batch = batch_of e a tries q p in
    record {
      order = append-nil (taken (batches ++ batch ∷ [])) ∙ (taken-snoc batches batch ∙ f.order);
      sent = AllSent-snoc batches batch f.sent t.sent;
      addressed = tt;
      session = elim t.session [ inl c ↦ inl (ap not c) | inr s ↦ inr s ];
      entries =
          turn_entries e a tries (lost_entries batches) w w' q p t f.entries
          ∙ (sym (lost_entries-snoc batches batch)
              ∙ plus_none (lost_entries (batches ++ batch ∷ [])));
    }

-- The session of a worker that lives.
closed_session :
    {w : Locals} {q : Queue} {accepted : List HostRecord} {batches : List Batch}
    → Fifo true w q accepted batches
    → w.session ≡ closed 0
closed_session f = elim f.session [ inl h ↦ cc | inr s ↦ s ]

-- Whatever the system answers, and however appends and rounds follow each other, the queue of an agent is a FIFO
-- if its worker may try to connect at least once and there is a context: the batches that were taken, one after the
-- other, and then what is in the queue are the records that were accepted, in their order. In a round whose
-- connection and handshake succeed the buffers of the first records of the batch are handed to `SSL_write`, in their
-- order: of all of them, or of those up to the first behind which the worker is cancelled. What is written whole
-- are those of these buffers whose `SSL_write` does so, as its failures are only logged. In any other round nothing is
-- handed over. All waiting records have an address of more than two bytes, no object of OpenSSL is left between rounds
-- while the worker lives, and the allocated entries are those in the queue, those of the batches whose handshake failed
-- behind a connection, and those that a cancelled worker did not reach.
pub History-Fifo :
    {agent : Agent} {tries : ℕ} {alive : Bool} {w : Locals} {q : Queue} {accepted : List HostRecord}
    {batches : List Batch}
    → 0 < tries
    → History agent tries alive w q accepted batches
    → Fifo alive w q accepted batches
History-Fifo t begin = record {
  order = refl;
  sent = tt;
  addressed = tt;
  session = inr refl;
  entries = omega arith;
}
History-Fifo t (append {w} {q} {q'} {accepted} {batches} history e rs h) =
    let f = History-Fifo t history in
    let (k, a) =
      returned (Joined q rs) (client_queue_append e q rs) h (client_queue_append-Joined e q rs) in
    record {
      order = rw k (sym (append_assoc (taken batches) q.head rs) ∙ ap (λ x. x ++ rs) f.order);
      sent = f.sent;
      addressed = rw k (AllAddressed-append q.head rs f.addressed a);
      session = f.session;
      entries = rw k (ground (arith, f.entries, length-append q.head rs));
    }
History-Fifo t (refuse {w} {q} {q'} history e rs h) =
    let f = History-Fifo t history in
    let k =
      returned (Joined q rs) (client_queue_append e q rs) h (client_queue_append-Joined e q rs) in
    record {
      order = rw k f.order;
      sent = f.sent;
      addressed = rw k f.addressed;
      session = f.session;
      entries = rw k f.entries;
    }
History-Fifo {agent} {tries} t (round {w} {w'} {q} {q'} {accepted} {batches} {p} history e a x h) =
    let f = History-Fifo t history in
    let (w1, p1, k, turned) = worker_turn-Turned e a tries w q t x (closed_session f) f.addressed in
    returned
      (λ (v, s, u). Fifo (not s.cancelled) v u accepted (batches ++ batch_of e a tries q s ∷ []))
      (worker_turn e a tries w q) h
      (rw (k, IfReturns) (round-Fifo e a tries w w1 q accepted batches p1 f turned))

-- When the queue is destroyed and its worker is cancelled then, between two rounds, or was cancelled in one, no entry
-- stays allocated but those of the batches whose handshake failed behind a connection and those that were not reached.
pub client_queue_destroy-Fifo :
    {agent : Agent} {tries : ℕ} {alive : Bool} {w : Locals} {q : Queue} {accepted : List HostRecord}
    {batches : List Batch}
    → 0 < tries
    → History agent tries alive w q accepted batches
    → (client_queue_destroy true w q).0.entries ≡ lost_entries batches
unfolding client_queue_destroy worker_cleanup
client_queue_destroy-Fifo {agent} {tries} {alive} {w} {q} t history =
    rw (disintegrate_queue_lem q.head w) (omega (arith, (History-Fifo t history).entries))
