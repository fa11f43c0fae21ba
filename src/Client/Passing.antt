-- ===== src/Client/Passing.antt =====
-- Within the bounds of src/network/cli/client.c, no assertion of a flush fails and every round of a queue's worker
-- returns.
use agentsmith.Base.{
  ℕ, ◌+◌, true, false, List, [], ◌∷◌, ◌≡◌, refl, inl, inr, arith, leb, ltb, Bool-cases, length,
  ◌&&◌,
}
use agentsmith.Base.Outcome.{ret, Passes, bind-Passes, anything}
use agentsmith.Base.Cstring.{Bytes}
use agentsmith.Records.{HostRecord}
use agentsmith.Queue.{Queue, QueueEnv, RoundEnv, connects, worker_round, client_queue_append}
use agentsmith.Queue.Append.{AllAddressed, client_queue_append_cases}
use agentsmith.Queue.Worker.{send_all_returns}
use agentsmith.Client.{Client, host_record_vector_len, append_to_all, client_queue_flush}
use agentsmith.Client.Kept.{AllOwn, AllOwn-AllAddressed, AllQueues, IsBounded}

client_queue_append-Passes :
    (e : QueueEnv) (q : Queue) (r : HostRecord) (rs : List HostRecord)
    → AllAddressed (r ∷ rs)
    → Passes (client_queue_append e q (r ∷ rs))
client_queue_append-Passes e q r rs a = elim (client_queue_append_cases e q r rs a) [
  | inl k ↦ rw (k, Passes) tt
  | inr (inl (k, _)) ↦ rw (k, Passes) tt
  | inr (inr (inl k)) ↦ rw (k, Passes) tt
  | inr (inr (inr (k, _))) ↦ rw (k, Passes) tt
]

append_to_all-Passes :
    (e : ℕ → QueueEnv) (r : HostRecord) (rs : List HostRecord) (qs : List Queue) (i : ℕ)
    → AllAddressed (r ∷ rs)
    → Passes (append_to_all e (r ∷ rs) qs i)
unfolding append_to_all
append_to_all-Passes e r rs [] i a = tt
append_to_all-Passes e r rs (q ∷ qs) i a =
    bind-Passes (λ x. Unit) (client_queue_append (e i) q (r ∷ rs)) _
      (client_queue_append-Passes (e i) q r rs a) (anything (client_queue_append (e i) q (r ∷ rs)))
      (λ (q', x) _.
        bind-Passes (λ x. Unit) (append_to_all e (r ∷ rs) qs (i + 1)) _
          (append_to_all-Passes e r rs qs (i + 1) a)
          (anything (append_to_all e (r ∷ rs) qs (i + 1))) (λ qs' _. tt))

queued-Passes :
    (e : ℕ → QueueEnv) (rs : List HostRecord) (qs : List Queue)
    → AllOwn rs
    → ltb (length rs) 1 ≡ false
    → Passes (append_to_all e rs qs 0)
queued-Passes e [] qs a h = cc
queued-Passes e (r ∷ rs) qs a h = append_to_all-Passes e r rs qs 0 (AllOwn-AllAddressed (r ∷ rs) a)

pub client_queue_flush-Passes :
    (e : ℕ → QueueEnv) (c : Client) → IsBounded c → Passes (client_queue_flush e c)
unfolding client_queue_flush
client_queue_flush-Passes e c w =
    let fits : leb (length c.pending) host_record_vector_len ≡ true = ground (arith, w.fits) in
    elim (Bool-cases c.started) [
      | inr s ↦ rw (fits, s, Passes) tt
      | inl s ↦ elim (Bool-cases (ltb (length c.pending) 1)) [
        | inl n ↦ rw (fits, s, n, Passes) tt
        | inr n ↦
            rw (fits, s, n, Passes)
              (bind-Passes (λ x. Unit) (append_to_all e c.pending c.queues 0) _
                (queued-Passes e c.pending c.queues w.own n)
                (anything (append_to_all e c.pending c.queues 0)) (λ qs _. tt))
      ]
    ]

-- A round of the worker returns and leaves the queue empty.
abbrev pub Sends : Queue → Type 0
Sends q =
    (e : RoundEnv) (tries : ℕ)
    → (sent : List Bytes) × (worker_round e tries q ≡ ret (sent, record q { head = [] }))

pub worker_round-Sends : (q : Queue) → AllOwn q.head → Sends q
unfolding worker_round
worker_round-Sends q a e tries =
    let (sent, h) = send_all_returns q.head (AllOwn-AllAddressed q.head a) in
    elim (Bool-cases (connects e 0 tries && e.handshake)) [
      | inl k ↦ (sent, rw k (rw h refl))
      | inr k ↦ ([], rw k refl)
    ]

abbrev pub AllSend : List Queue → Type 0
AllSend [] = Unit
AllSend (q ∷ qs) = Sends q × AllSend qs

pub AllQueues-AllSend : (qs : List Queue) → AllQueues qs → AllSend qs
AllQueues-AllSend [] w = tt
AllQueues-AllSend (q ∷ qs) w = (worker_round-Sends q w.0, AllQueues-AllSend qs w.1)
