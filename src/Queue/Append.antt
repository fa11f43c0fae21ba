-- ===== src/Queue/Append.antt =====
-- `client_queue_append` of src/network/cli/clientqueue.c: all records join the end of the queue, in
-- their order, or none does.
use agentsmith.Base.{
  ℕ, ◌+◌, Bool, true, false, List, [], ◌∷◌, ◌++◌, ◌==◌, ◌≡◌, ◌≢◌, refl, sym, ap, ◌∙◌, ◌⊎◌, inl, inr,
  Bool-cases, ne_of_test, append-nil, append_assoc,
}
use agentsmith.Base.Outcome.{Outcome, ret, die, undefined, ok, err}
use agentsmith.Records.{HostRecord}
use agentsmith.Queue.{
  Queue, QueueEnv, is_addressed, is_empty, add_entry, add_entries, client_queue_append,
}

-- The address of every record is long enough for the assertions.
abbrev pub AllAddressed : List HostRecord → Type 0
AllAddressed [] = Unit
AllAddressed (r ∷ rs) = (is_addressed r ≡ true) × AllAddressed rs

-- The system grants what the call asks of it.
pub record IsGranting (e : QueueEnv) : Type 0 where
  pub locks : e.lock ≡ 0
  pub entries : (i : ℕ) → e.entry i ≡ true
  pub copies : (i : ℕ) → e.copy i ≡ true

add_entry_served :
    (b : Bool) (r : HostRecord) → is_addressed r ≡ true → add_entry b true true r ≡ ret tt
unfolding add_entry
add_entry_served b r a = rw a

pub add_entries_served :
    (e : QueueEnv) (b : Bool) (head rs : List HostRecord) (i : ℕ)
    → IsGranting e
    → AllAddressed rs
    → add_entries e b head rs i ≡ ret (head ++ rs)
unfolding add_entries
add_entries_served e b head [] i g a = ap ret (sym (append-nil head))
add_entries_served e b head (r ∷ rs) i g a =
    rw (g.entries i, g.copies i, add_entry_served b r a.0)
      (add_entries_served e b (head ++ r ∷ []) rs (i + 1) g a.1
        ∙ ap ret (append_assoc head (r ∷ []) rs))

-- When the system grants everything, `client_queue_append` puts the records, one at least and all with an
-- address of more than two bytes, behind those of the queue.
pub client_queue_append_served :
    (e : QueueEnv) (q : Queue) (r : HostRecord) (rs : List HostRecord)
    → IsGranting e
    → AllAddressed (r ∷ rs)
    → client_queue_append e q (r ∷ rs) ≡ ret (record q { head = q.head ++ r ∷ rs }, ok)
unfolding client_queue_append
client_queue_append_served e q r rs g a =
    rw (g.locks, add_entries_served e (is_empty q.head) q.head (r ∷ rs) 0 g a)

-- How the loop over the entries ends.
abbrev Ends : Bool → List HostRecord → Outcome (List HostRecord) → Type 0
Ends b full m = (m ≡ ret full) ⊎ (m ≡ die 1) ⊎ ((m ≡ undefined) × (b ≡ false))

add_entries-Ends :
    (e : QueueEnv) (b : Bool) (head rs : List HostRecord) (i : ℕ)
    → AllAddressed rs
    → Ends b (head ++ rs) (add_entries e b head rs i)
unfolding add_entries add_entry
add_entries-Ends e b head [] i a = inl (ap ret (sym (append-nil head)))
add_entries-Ends e b head (r ∷ rs) i a = elim (Bool-cases (e.entry i)) [
  | inl h ↦ elim (Bool-cases (e.copy i)) [
    | inl k ↦
        rw (h, k, a.0, sym (append_assoc head (r ∷ []) rs))
          (add_entries-Ends e b (head ++ r ∷ []) rs (i + 1) a.1)
    | inr k ↦ rw (h, k) (inr (inl refl))
  ]
  | inr h ↦ elim (Bool-cases b) [
    | inl k ↦ rw (h, k) (inr (inl refl))
    | inr k ↦ rw (h, k) (inr (inr (refl, refl)))
  ]
]

-- Whatever the system answers, `client_queue_append` on one record at least, all with an address of
-- more than two bytes, passes its assertions. Either all records are behind those of the queue, in
-- their order, or the lock failed and the queue is as before with the result RETVAL_ERR, or the
-- program exits with code 1, or, only if the queue was not empty, the behaviour is undefined.
pub client_queue_append_cases :
    (e : QueueEnv) (q : Queue) (r : HostRecord) (rs : List HostRecord)
    → AllAddressed (r ∷ rs)
    → (client_queue_append e q (r ∷ rs) ≡ ret (record q { head = q.head ++ r ∷ rs }, ok))
      ⊎ ((client_queue_append e q (r ∷ rs) ≡ ret (q, err)) × (e.lock ≢ 0))
      ⊎ (client_queue_append e q (r ∷ rs) ≡ die 1)
      ⊎ ((client_queue_append e q (r ∷ rs) ≡ undefined) × (is_empty q.head ≡ false))
unfolding client_queue_append
client_queue_append_cases e q r rs a = elim (Bool-cases (e.lock == 0)) [
  | inr l ↦ rw l (inr (inl (refl, ne_of_test _ _ l)))
  | inl l ↦ elim (add_entries-Ends e (is_empty q.head) q.head (r ∷ rs) 0 a) [
    | inl h ↦ rw (l, h) (inl refl)
    | inr (inl h) ↦ rw (l, h) (inr (inr (inl refl)))
    | inr (inr (h, k)) ↦ rw (l, h) (inr (inr (inr (refl, k))))
  ]
]
