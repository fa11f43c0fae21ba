-- ===== src/Client/Delivery.antt =====
-- src/network/cli/client.c: every record that is handed to `client_queue_record` reaches every queue once, in order.
-- The backlog of a queue is what its worker has still to send, or will have after the next flush.
use agentsmith.Base.{
  ℕ, suc, ◌+◌, ◌≤◌, Bool, true, false, not, List, [], ◌∷◌, ◌++◌, map, leb, ltb, ◌≡◌, refl, sym, ap,
  ap₂, ◌∙◌, arith, if◌then◌else◌, Bool-cases, inl, inr, length, append-nil, append_assoc,
  length-append,
}
use mathlib.Core.Path.{subst}
use agentsmith.Base.Outcome.{Outcome, ret, Retval, ok}
use agentsmith.Records.{HostRecord}
use agentsmith.Queue.{Queue, QueueEnv, is_addressed}
use agentsmith.Queue.Append.{AllAddressed, IsGranting, client_queue_append_served}
use agentsmith.Client.{
  Client, host_record_vector_len, append_to_all, client_queue_flush, client_queue_record,
}

abbrev pub backlog : Client → List (List HostRecord)
backlog c = map (λ q. q.head ++ c.pending) c.queues

-- The client runs, its vector is not overfull, and the records in it have long enough addresses.
pub record IsRunning (c : Client) : Type 0 where
  pub runs : c.started ≡ true
  pub fits : length c.pending ≤ host_record_vector_len
  pub addressed : AllAddressed c.pending

abbrev pub AllGranting : (ℕ → QueueEnv) → Type 0
AllGranting e = (i : ℕ) → IsGranting (e i)

-- The records behind those of a queue.
abbrev joined : List HostRecord → Queue → Queue
joined rs q = record q { head = q.head ++ rs }

leb_holds : (a b : ℕ) → a ≤ b → leb a b ≡ true
leb_holds a b h = ground arith

ltb_one : (n : ℕ) → ltb (suc n) 1 ≡ false
ltb_one n = ground arith

if_started : {A : Type 0} (b : Bool) (m n : A) → b ≡ true → (if not b then m else n) ≡ n
if_started b m n h = ground arith

append_to_all_served :
    (e : ℕ → QueueEnv) (r : HostRecord) (rs : List HostRecord) (qs : List Queue) (i : ℕ)
    → AllGranting e
    → AllAddressed (r ∷ rs)
    → append_to_all e (r ∷ rs) qs i ≡ ret (map (joined (r ∷ rs)) qs)
unfolding append_to_all
append_to_all_served e r rs [] i g a = refl
append_to_all_served e r rs (q ∷ qs) i g a =
    rw (client_queue_append_served (e i) q r rs (g i) a, append_to_all_served e r rs qs (i + 1) g a)
      refl

backlog_appended :
    (rs : List HostRecord) (qs : List Queue)
    → map (λ q. q.head ++ []) (map (joined rs) qs) ≡ map (λ q. q.head ++ rs) qs
backlog_appended rs [] = refl
backlog_appended rs (q ∷ qs) = ap₂ (λ x xs. x ∷ xs) (append-nil _) (backlog_appended rs qs)

-- A flush succeeds, empties the vector and keeps every backlog.
pub record Flushed (e : ℕ → QueueEnv) (c d : Client) : Type 0 where
  pub returns : client_queue_flush e c ≡ ret (d, ok)
  pub keeps : backlog d ≡ backlog c
  pub empties : d.pending ≡ []
  pub runs : d.started ≡ true

flush_pending :
    (e : ℕ → QueueEnv) (qs : List Queue) (rs : List HostRecord)
    → AllGranting e
    → AllAddressed rs
    → length rs ≤ host_record_vector_len
    → (d : Client) × Flushed e (record { started = true; queues = qs; pending = rs }) d
unfolding client_queue_flush
flush_pending e qs [] g a h = (
  record { started = true; queues = qs; pending = [] },
  record { returns = refl; keeps = refl; empties = refl; runs = refl },
)
flush_pending e qs (r ∷ rs) g a h = (
  record { started = true; queues = map (joined (r ∷ rs)) qs; pending = [] },
  record {
    returns =
        rw (leb_holds _ _ h, ltb_one (length rs)) (rw (append_to_all_served e r rs qs 0 g a) refl);
    keeps = backlog_appended (r ∷ rs) qs;
    empties = refl;
    runs = refl;
  },
)

-- When the system grants everything, `client_queue_flush` on a running client succeeds, empties the
-- vector and keeps every backlog.
pub client_queue_flush-Flushed :
    (e : ℕ → QueueEnv) (c : Client) → AllGranting e → IsRunning c → (d : Client) × Flushed e c d
client_queue_flush-Flushed e c g w =
    subst (λ st. (d : Client) × Flushed e (record c { started = st }) d) (sym w.runs)
      (flush_pending e c.queues c.pending g w.addressed w.fits)

AllAddressed-snoc :
    (rs : List HostRecord) (r : HostRecord)
    → AllAddressed rs
    → is_addressed r ≡ true
    → AllAddressed (rs ++ r ∷ [])
AllAddressed-snoc [] r a h = (h, tt)
AllAddressed-snoc (x ∷ rs) r a h = (a.0, AllAddressed-snoc rs r a.1 h)

backlog_grown :
    (p : List HostRecord) (r : HostRecord) (qs : List Queue)
    → map (λ q. q.head ++ (p ++ r ∷ [])) qs ≡ map (λ b. b ++ r ∷ []) (map (λ q. q.head ++ p) qs)
backlog_grown p r [] = refl
backlog_grown p r (q ∷ qs) =
    ap₂ (λ x xs. x ∷ xs) (sym (append_assoc q.head p (r ∷ []))) (backlog_grown p r qs)

-- The record joins the end of every backlog, and the client still runs.
pub record Recorded (m : Outcome (Client × Retval)) (c d : Client) (hr : HostRecord) : Type 0 where
  pub returns : m ≡ ret (d, ok)
  pub grows : backlog d ≡ map (λ b. b ++ hr ∷ []) (backlog c)
  pub running : IsRunning d

record_with_room :
    (fuel : ℕ) (e : ℕ → QueueEnv) (c : Client) (hr : HostRecord)
    → IsRunning c
    → is_addressed hr ≡ true
    → leb host_record_vector_len (length c.pending) ≡ false
    → (d : Client) × Recorded (client_queue_record (suc fuel) e true c hr) c d hr
unfolding client_queue_record
record_with_room fuel e c hr w a room = (
  record c { pending = c.pending ++ hr ∷ [] },
  record {
    returns = rw a (if_started c.started _ _ w.runs ∙ rw room refl);
    grows = backlog_grown c.pending hr c.queues;
    running = record {
      runs = w.runs;
      fits = ground (arith, length-append c.pending (hr ∷ []));
      addressed = AllAddressed-snoc c.pending hr w.addressed a;
    };
  },
)

-- When the system grants everything, `client_queue_record` on a running client and a record with an
-- address of more than two bytes succeeds, with any fuel from 2 on: the record joins the end of
-- every backlog, also where the vector was full and is flushed first, and the client still runs.
pub client_queue_record-Recorded :
    (fuel : ℕ) (e : ℕ → QueueEnv) (c : Client) (hr : HostRecord)
    → AllGranting e
    → IsRunning c
    → is_addressed hr ≡ true
    → (d : Client) × Recorded (client_queue_record (suc (suc fuel)) e true c hr) c d hr
unfolding client_queue_record
client_queue_record-Recorded fuel e c hr g w a =
    elim (Bool-cases (leb host_record_vector_len (length c.pending))) [
      | inr room ↦ record_with_room (suc fuel) e c hr w a room
      | inl full ↦
          let (c', f) = client_queue_flush-Flushed e c g w in
          let (d, k) = record_with_room fuel e c' hr (flushed_IsRunning f) a (rw f.empties refl) in
          (
            d,
            record {
              returns = rw a (if_started c.started _ _ w.runs ∙ rw full (rw f.returns k.returns));
              grows = k.grows ∙ ap (map (λ b. b ++ hr ∷ [])) f.keeps;
              running = k.running;
            },
          )
    ]
  where
    flushed_IsRunning : {c' : Client} → Flushed e c c' → IsRunning c'
    flushed_IsRunning f = record {
      runs = f.runs;
      fits = rw f.empties (omega arith);
      addressed = rw f.empties tt;
    }
