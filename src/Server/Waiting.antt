-- ===== src/Server/Waiting.antt =====
-- The loops of src/network/srv/server.c that wait for the workers.
use agentsmith.Base.{
  ℕ, zero, suc, ◌+◌, ◌≤◌, false, ◌==◌, ltb, ◌≡◌, ◌≢◌, ◌⊎◌, inl, inr, arith, Bool-cases, ne_of_test,
}
use agentsmith.Server.{wait_for, max_wait_worker}

wait_for_lem :
    (sem_getvalue : ℕ → ℕ × ℕ) (enough slept left : ℕ)
    → (slept ≤ wait_for sem_getvalue enough slept left)
      × (wait_for sem_getvalue enough slept left ≤ slept + left)
      × ((wait_for sem_getvalue enough slept left ≡ slept + left)
          ⊎ (enough ≤ (sem_getvalue (wait_for sem_getvalue enough slept left)).1)
          ⊎ ((sem_getvalue (wait_for sem_getvalue enough slept left)).0 ≢ 0))
unfolding wait_for
wait_for_lem sem_getvalue enough slept zero = (omega arith, omega arith, inl (omega arith))
wait_for_lem sem_getvalue enough slept (suc left) =
    elim (Bool-cases (ltb (sem_getvalue slept).1 enough)) [
      | inr h ↦ rw h (omega arith, omega arith, inr (inl (not_less _ _ h)))
      | inl h ↦ elim (Bool-cases ((sem_getvalue slept).0 == 0)) [
        | inr k ↦ rw (h, k) (omega arith, omega arith, inr (inr (ne_of_test _ _ k)))
        | inl k ↦
            let (lo, hi, end) = wait_for_lem sem_getvalue enough (slept + 1) left in
            rw (h, k)
              (omega arith, omega arith, elim end [ inl e ↦ inl (omega arith) | inr e ↦ inr e ])
      ]
    ]
  where
    not_less : (a b : ℕ) → ltb a b ≡ false → b ≤ a
    not_less a b h = ground arith

-- A wait for the semaphore sleeps ten times at most. If it goes on before that, the semaphore had the value
-- that was waited for, or its value could not be read.
pub wait_for_bounded :
    (sem_getvalue : ℕ → ℕ × ℕ) (enough : ℕ)
    → (wait_for sem_getvalue enough 0 max_wait_worker ≤ max_wait_worker)
      × ((wait_for sem_getvalue enough 0 max_wait_worker ≡ max_wait_worker)
          ⊎ (enough ≤ (sem_getvalue (wait_for sem_getvalue enough 0 max_wait_worker)).1)
          ⊎ ((sem_getvalue (wait_for sem_getvalue enough 0 max_wait_worker)).0 ≢ 0))
wait_for_bounded sem_getvalue enough =
    let (lo, hi, end) = wait_for_lem sem_getvalue enough 0 max_wait_worker in (hi, end)
