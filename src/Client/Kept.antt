-- ===== src/Client/Kept.antt =====
-- Whatever the system answers, src/network/cli/client.c keeps its vector from overflowing, and in it and in the
-- queues only records of this host with an address that is long enough for the assertions of the workers.
use agentsmith.Base.{
  ℕ, zero, suc, ◌+◌, ◌≤◌, Bool, true, false, List, [], ◌∷◌, ◌++◌, leb, ltb, ◌≡◌, inl, inr, arith,
  if◌then◌else◌, Bool-cases, length, length-append,
}
use agentsmith.Base.Outcome.{ret, die, Retval, ok, err, IfReturns, bind-IfReturns, assert-IfReturns}
use agentsmith.Base.Cstring.{same_str}
use agentsmith.Records.{HostRecord, localhost}
use agentsmith.Queue.{Queue, QueueEnv, is_addressed, client_queue_append}
use agentsmith.Queue.Append.{AllAddressed, client_queue_append_cases}
use agentsmith.Client.{
  Client, host_record_vector_len, append_to_all, client_queue_flush, client_queue_record,
}

-- All were found by this host, and have an address of more than two bytes.
abbrev pub AllOwn : List HostRecord → Type 0
AllOwn [] = Unit
AllOwn (r ∷ rs) = ((is_addressed r ≡ true) × (same_str r.origin localhost ≡ true)) × AllOwn rs

pub AllOwn-AllAddressed : (rs : List HostRecord) → AllOwn rs → AllAddressed rs
AllOwn-AllAddressed [] h = tt
AllOwn-AllAddressed (r ∷ rs) h = (h.0.0, AllOwn-AllAddressed rs h.1)

abbrev pub AllQueues : List Queue → Type 0
AllQueues [] = Unit
AllQueues (q ∷ qs) = AllOwn q.head × AllQueues qs

-- The vector is not overfull, and all records are of this host and have long enough addresses.
pub record IsBounded (c : Client) : Type 0 where
  pub fits : length c.pending ≤ host_record_vector_len
  pub own : AllOwn c.pending
  pub queued : AllQueues c.queues

AllOwn-append : (a b : List HostRecord) → AllOwn a → AllOwn b → AllOwn (a ++ b)
AllOwn-append [] b h k = k
AllOwn-append (r ∷ a) b h k = (h.0, AllOwn-append a b h.1 k)

pub client_queue_append-AllOwn :
    (e : QueueEnv) (q : Queue) (rs : List HostRecord)
    → AllOwn rs
    → AllOwn q.head
    → IfReturns (λ (q', r). AllOwn q'.head) (client_queue_append e q rs)
unfolding client_queue_append
client_queue_append-AllOwn e q [] a h = tt
client_queue_append-AllOwn e q (r ∷ rs) a h =
    elim (client_queue_append_cases e q r rs (AllOwn-AllAddressed (r ∷ rs) a)) [
      | inl k ↦ rw (k, IfReturns) (AllOwn-append q.head (r ∷ rs) h a)
      | inr (inl (k, _)) ↦ rw (k, IfReturns) h
      | inr (inr (inl k)) ↦ rw (k, IfReturns) tt
      | inr (inr (inr (k, _))) ↦ rw (k, IfReturns) tt
    ]

append_to_all-AllQueues :
    (e : ℕ → QueueEnv) (rs : List HostRecord) (qs : List Queue) (i : ℕ)
    → AllOwn rs
    → AllQueues qs
    → IfReturns AllQueues (append_to_all e rs qs i)
unfolding append_to_all
append_to_all-AllQueues e rs [] i a h = tt
append_to_all-AllQueues e rs (q ∷ qs) i a h =
    bind-IfReturns (λ (q', r). AllOwn q'.head) AllQueues (client_queue_append (e i) q rs) _
      (client_queue_append-AllOwn (e i) q rs a h.0)
      (λ (q', r) k.
        bind-IfReturns AllQueues AllQueues (append_to_all e rs qs (i + 1)) _
          (append_to_all-AllQueues e rs qs (i + 1) a h.1) (λ qs' k'. (k, k')))

abbrev pub Bounded : Client × Retval → Type 0
Bounded (c, r) = IsBounded c

pub client_queue_flush-Bounded :
    (e : ℕ → QueueEnv) (c : Client) → IsBounded c → IfReturns Bounded (client_queue_flush e c)
unfolding client_queue_flush
client_queue_flush-Bounded e c w =
    assert-IfReturns Bounded (leb (length c.pending) host_record_vector_len) _
      (elim (Bool-cases c.started) [
        | inr s ↦ rw (s, IfReturns) (record { fits = w.fits; own = w.own; queued = w.queued })
        | inl s ↦ elim (Bool-cases (ltb (length c.pending) 1)) [
          | inl n ↦ rw (s, n, IfReturns) (record { fits = w.fits; own = w.own; queued = w.queued })
          | inr n ↦
              rw (s, n, IfReturns)
                (bind-IfReturns AllQueues Bounded (append_to_all e c.pending c.queues 0) _
                  (append_to_all-AllQueues e c.pending c.queues 0 w.own w.queued)
                  (λ qs k. record { fits = omega arith; own = tt; queued = k }))
        ]
      ])

pub client_queue_record-Bounded :
    (fuel : ℕ) (e : ℕ → QueueEnv) (memory : Bool) (c : Client) (hr : HostRecord)
    → same_str hr.origin localhost ≡ true
    → IsBounded c
    → IfReturns Bounded (client_queue_record fuel e memory c hr)
unfolding client_queue_record
client_queue_record-Bounded zero e memory c hr o w = tt
client_queue_record-Bounded (suc fuel) e memory c hr o w = elim (Bool-cases (is_addressed hr)) [
  | inr a ↦ rw (a, IfReturns) tt
  | inl a ↦ elim (Bool-cases c.started) [
    | inr s ↦ rw (a, s, IfReturns) (record { fits = w.fits; own = w.own; queued = w.queued })
    | inl s ↦ elim (Bool-cases (leb host_record_vector_len (length c.pending))) [
      | inl full ↦
          rw (a, s, full, IfReturns)
            (bind-IfReturns Bounded Bounded (client_queue_flush e c) _
              (client_queue_flush-Bounded e c w)
              (λ (c', r) k.
                again (λ c' k. client_queue_record-Bounded fuel e memory c' hr o k) c' k r))
      | inr room ↦ rw (a, s, room, IfReturns) (room_left memory a room)
    ]
  ]
]
  where
    again :
        ((c' : Client) → IsBounded c' → IfReturns Bounded (client_queue_record fuel e memory c' hr))
        → (c' : Client) → IsBounded c'
        → (r : Retval)
        → IfReturns Bounded
            (elim r [ ok ↦ client_queue_record fuel e memory c' hr | err ↦ ret (c', err) ])
    again more c' k ok = more c' k
    again more c' k err = k

    room_left :
        (m : Bool)
        → is_addressed hr ≡ true
        → leb host_record_vector_len (length c.pending) ≡ false
        → IfReturns Bounded
            (if m then ret (record c { pending = c.pending ++ hr ∷ [] }, ok) else die 1)
    room_left false a room = tt
    room_left true a room = record {
      fits = ground (arith, length-append c.pending (hr ∷ []));
      own = AllOwn-append c.pending (hr ∷ []) w.own ((a, o), tt);
      queued = w.queued;
    }
