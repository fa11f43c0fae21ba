-- ===== src/Program/Kept.antt =====
-- Whatever the system answers, a start of src/main.c that gets as far as the log leaves both vectors in order and a
-- client with empty queues.
use agentsmith.Base.{
  ℕ, zero, suc, Bool, ◌&&◌, List, [], ◌∷◌, ◌==◌, ltb, ◌≡◌, refl, inl, inr, arith, Bool-cases,
  length,
}
use agentsmith.Base.Outcome.{
  Outcome, ret, die, aborted, undefined, ◌>>=◌, Retval, ok, err, IfReturns, bind-IfReturns,
  assert-IfReturns,
}
use agentsmith.Slots.{chunk, unstarted, start}
use agentsmith.Slots.Layout.{IsLaidOut, start-IsLaidOut}
use agentsmith.Records.{records_init}
use agentsmith.Records.Lookup.{IsValid}
use agentsmith.Records.Starting.{IsUnique-replicate}
use agentsmith.Exclude.Rules.{exclude_init}
use agentsmith.Queue.{Agent, Queue, client_queue_init}
use agentsmith.Client.{Client, start_queues, client_start, max_client_queues}
use agentsmith.Client.Kept.{IsBounded, Bounded, AllQueues}
use agentsmith.Watch.{Pcre, regex_prepare}
use agentsmith.Settings.{Settings}
use agentsmith.Tls.Secured.{is_usable, lacks_parameter, netssl_initialize-secured}
use agentsmith.Program.Starting.{contexts, read_exclude-LaidOut}
use agentsmith.Signals.Setup.{signalhandler_setup}
use agentsmith.Program.{
  needs_tls, CommandLine, BootEnv, System, threads_start, first_addresses, informs_agents,
  start_client, start_tls, set_up, read_exclude,
}

-- Nothing is known of the result.
pub skip-IfReturns :
    {A B : Type 0} (Q : B → Type 0) (m : Outcome A) (f : A → Outcome B)
    → ((a : A) → IfReturns Q (f a))
    → IfReturns Q (m >>= f)
skip-IfReturns Q (ret a) f k = k a
skip-IfReturns Q (die n) f k = tt
skip-IfReturns Q aborted f k = tt
skip-IfReturns Q undefined f k = tt

client_queue_init-empty :
    (memory : Bool) (mutex cond create : ℕ) (a : Agent)
    → IfReturns (λ q. q.head ≡ []) (client_queue_init memory mutex cond create a)
unfolding client_queue_init
client_queue_init-empty memory mutex cond create a =
    assert-IfReturns _ (ltb 0 (length a.sockaddr)) _ (
      assert-IfReturns _ a.supported _
        (elim (Bool-cases (memory && mutex == 0 && cond == 0 && create == 0)) [
          | inl h ↦ rw (h, IfReturns) refl
          | inr h ↦ rw (h, IfReturns) tt
        ]))

start_queues-AllQueues :
    (init : Agent → Outcome Queue)
    → ((a : Agent) → IfReturns (λ q. q.head ≡ []) (init a))
    → (room : ℕ) (agents : List Agent) → IfReturns AllQueues (start_queues init room agents)
unfolding start_queues
start_queues-AllQueues init h zero agents = tt
start_queues-AllQueues init h (suc room) [] = tt
start_queues-AllQueues init h (suc room) (a ∷ agents) =
    bind-IfReturns (λ q. q.head ≡ []) AllQueues (init a) _ (h a)
      (λ q e.
        bind-IfReturns AllQueues AllQueues (start_queues init room agents) _
          (start_queues-AllQueues init h room agents) (λ qs w. (rw e tt, w)))

client_start-Bounded :
    (memory : Bool) (mutex cond create : ℕ) (agents : List Agent)
    → IfReturns Bounded (client_start memory mutex cond create agents)
unfolding client_start
client_start-Bounded memory mutex cond create agents =
    bind-IfReturns AllQueues Bounded
      (start_queues (client_queue_init memory mutex cond create) max_client_queues agents) _
      (start_queues-AllQueues (client_queue_init memory mutex cond create)
        (client_queue_init-empty memory mutex cond create) max_client_queues agents)
      (λ qs w. record { fits = omega arith; own = tt; queued = w })

start_client-IsBounded : (e : BootEnv) (s : Settings) → IfReturns IsBounded (start_client e s)
unfolding start_client
start_client-IsBounded e s = elim (Bool-cases (informs_agents s)) [
  | inr h ↦ rw (h, IfReturns) (record { fits = omega arith; own = tt; queued = tt })
  | inl h ↦
      rw (h, IfReturns)
        (skip-IfReturns IsBounded (first_addresses s.inform_agents) _ (λ firsts.
          bind-IfReturns Bounded IsBounded (client_start e.memory e.mutex e.cond e.create firsts) _
            (client_start-Bounded e.memory e.mutex e.cond e.create firsts)
            (λ (c, r) w. started c w r)))
]
  where
    started :
        (c : Client)
        → IsBounded c
        → (r : Retval) → IfReturns IsBounded (elim r [ ok ↦ ret c | err ↦ die 1 ])
    started c w ok = w
    started c w err = tt

records_init-IsValid_lem :
    (calloc : Bool) (mutex : ℕ) → IfReturns IsValid (records_init calloc mutex unstarted)
unfolding records_init unstarted start
records_init-IsValid_lem calloc mutex = elim (Bool-cases (calloc && mutex == 0)) [
  | inr h ↦ rw (h, IfReturns) tt
  | inl h ↦
      rw (h, IfReturns)
        (record {
          laid_out = start-IsLaidOut unstarted refl refl;
          unique = IsUnique-replicate chunk;
        })
]

exclude_init-IsLaidOut :
    (calloc : Bool) (mutex : ℕ) → IfReturns IsLaidOut (exclude_init calloc mutex unstarted)
unfolding exclude_init unstarted
exclude_init-IsLaidOut calloc mutex = elim (Bool-cases (calloc && mutex == 0)) [
  | inr h ↦ rw (h, IfReturns) tt
  | inl h ↦ rw (h, IfReturns) (start-IsLaidOut unstarted refl refl)
]

pub start_tls-IfReturns :
    (e : BootEnv) (s : Settings) → IfReturns (λ t. t ≡ contexts e s) (start_tls e.openssl s)
unfolding start_tls
start_tls-IfReturns e s = elim (Bool-cases (needs_tls s)) [
  | inr n ↦ rw (n, IfReturns) (rw n refl)
  | inl n ↦ elim (Bool-cases (lacks_parameter e.openssl s)) [
    | inl k ↦ rw n (rw (netssl_initialize-secured e.openssl s) (rw (k, IfReturns) tt))
    | inr k ↦ elim (Bool-cases (is_usable e.openssl s)) [
      | inl u ↦ rw n (rw (netssl_initialize-secured e.openssl s) (rw (k, u, IfReturns) refl))
      | inr u ↦ rw n (rw (netssl_initialize-secured e.openssl s) (rw (k, u, IfReturns) tt))
    ]
  ]
]

-- What the start leaves.
pub record IsBegun (e : BootEnv) (s : Settings) (y : System) : Type 0 where
  pub valid : IsValid y.store.vector
  pub laid_out : IsLaidOut y.store.rules
  pub bounded : IsBounded y.client
  pub tls : y.tls ≡ contexts e s

pub set_up-IsBegun :
    (p : Pcre) (e : BootEnv) (l : CommandLine) (s : Settings)
    → IfReturns (IsBegun e s) (set_up p e l s)
unfolding set_up
set_up-IsBegun p e l s = skip-IfReturns (IsBegun e s) (regex_prepare p) _ (λ u.
    elim (Bool-cases l.testonly) [
      | inl h ↦ rw (h, IfReturns) tt
      | inr h ↦
          rw (h, IfReturns)
            (bind-IfReturns IsValid (IsBegun e s)
              (records_init e.records_calloc e.records_mutex unstarted) _
              (records_init-IsValid_lem e.records_calloc e.records_mutex)
              (λ v w.
                bind-IfReturns (λ t. t ≡ contexts e s) (IsBegun e s) (start_tls e.openssl s) _
                  (start_tls-IfReturns e s)
                  (λ tls same.
                    bind-IfReturns IsLaidOut (IsBegun e s)
                      (exclude_init e.exclude_calloc e.exclude_mutex unstarted) _
                      (exclude_init-IsLaidOut e.exclude_calloc e.exclude_mutex)
                      (λ empty m.
                        bind-IfReturns IsLaidOut (IsBegun e s) (read_exclude e.reader s empty) _
                          (read_exclude-LaidOut e.reader s empty m)
                          (λ t k.
                            skip-IfReturns (IsBegun e s) (signalhandler_setup e.signals) _
                              (λ handlers. skip-IfReturns (IsBegun e s) (threads_start e s) _ (λ _.
                                bind-IfReturns IsBounded (IsBegun e s) (start_client e s) _
                                  (start_client-IsBounded e s)
                                  (λ c b. record {
                                    valid = w;
                                    laid_out = k;
                                    bounded = b;
                                    tls = same;
                                  }))))))))
    ])
