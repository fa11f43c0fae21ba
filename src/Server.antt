-- ===== src/Server.antt =====
-- src/network/srv/server.c: the sockets that are listened on, the wait for a free worker, the connections that
-- are accepted, and the shutdown.
pub mod Listening
pub mod Waiting
pub mod Loop
mod Tests
use agentsmith.Base.{
  ℕ, zero, suc, ◌+◌, ◌-◌, Bool, true, false, ◌&&◌, List, [], ◌∷◌, ◌++◌, Option, none, some, ◌==◌,
  ltb, if◌then◌else◌, length,
}
use agentsmith.Base.Outcome.{Outcome, ret, die, undefined, ◌>>=◌, Retval, ok, err}
use agentsmith.Queue.{Agent}
use agentsmith.Settings.{AddrInfo}

-- FD_SETSIZE of the system.
abbrev pub fd_setsize : ℕ
fd_setsize = 1024

-- What the system answers for one address: the socket, and whether it can be bound and listened on. The
-- result of `setsockopt` is only logged.
pub record Attempt : Type 0 where
  pub socket : Option ℕ
  pub bind : Bool
  pub listen : Bool

abbrev pub opened : Attempt → Option ℕ
opened a = elim a.socket [
  | none ↦ none
  | some fd ↦ if a.bind then (if a.listen then some fd else none) else none
]

-- `listen_fds[used_fds] = sockfd; FD_SET(sockfd, …); used_fds++;`, which is checked against neither limit.
unfoldable pub use_fd : List ℕ → Option ℕ → Outcome (List ℕ)
use_fd fds none = ret fds
use_fd fds (some fd) =
    if ltb (length fds) fd_setsize && ltb fd fd_setsize then ret (fds ++ fd ∷ []) else undefined

-- The inner loop, over the addresses of one name; the i-th attempt is next.
unfoldable pub listen_chain : (ℕ → Attempt) → ℕ → AddrInfo → List ℕ → Outcome (List ℕ)
unfolding use_fd
listen_chain attempts i [] fds = ret fds
listen_chain attempts i (a ∷ chain) fds = do
  fds' ← use_fd fds (opened (attempts i))
  listen_chain attempts (i + 1) chain fds'

-- The outer loop, which stops when FD_SETSIZE sockets are in use.
unfoldable pub listen_all : (ℕ → Attempt) → ℕ → List AddrInfo → List ℕ → Outcome (List ℕ)
unfolding listen_chain
listen_all attempts i [] fds = ret fds
listen_all attempts i (chain ∷ chains) fds = elim (ltb (length fds) fd_setsize) [
  | false ↦ ret fds
  | true ↦ do
    fds' ← listen_chain attempts i chain fds
    listen_all attempts (i + length chain) chains fds'
]

-- `_network_start_listening`: the sockets in `listen_fds`.
unfoldable pub network_start_listening : (ℕ → Attempt) → List AddrInfo → Outcome (List ℕ)
unfolding listen_all
network_start_listening attempts listen = listen_all attempts 0 listen []

-- MAXWAITWORKER
abbrev pub max_wait_worker : ℕ
max_wait_worker = 10

-- The loops that wait until the semaphore has a value of at least `enough`, with `left` more sleeps: `sem_getvalue`
-- gives its result and the value at each try. How often they have slept, of `slept` before.
unfoldable pub wait_for : (ℕ → ℕ × ℕ) → ℕ → ℕ → ℕ → ℕ
wait_for sem_getvalue enough slept zero = slept
wait_for sem_getvalue enough slept (suc left) =
    let more = wait_for sem_getvalue enough (slept + 1) left in
    if ltb (sem_getvalue slept).1 enough
    then (if (sem_getvalue slept).0 == 0 then more else slept)
    else slept

-- `_network_server_shutdown_and_cleanup`: the sleeps until it goes on, and whether the server is initialized
-- still, which a failing `sem_destroy` makes it.
unfoldable pub network_server_shutdown_and_cleanup : (ℕ → ℕ × ℕ) → ℕ → ℕ → Bool → ℕ × Bool
unfolding wait_for
network_server_shutdown_and_cleanup sem_getvalue maxinconnections sem_destroy initialized =
    if initialized
    then (
      wait_for sem_getvalue maxinconnections 0 max_wait_worker,
      (if sem_destroy == 0 then false else true),
    )
    else (0, false)

-- What the system answers for one socket that is ready: memory for the address, `accept`, memory for the
-- arguments of the thread, and whether the thread is created.
pub record Arrival : Type 0 where
  pub sock_addr : Bool
  pub sem_getvalue : ℕ → ℕ × ℕ
  pub accept : Option ℕ
  pub thr_args : Bool
  pub create : Bool

-- One connection: how long it waited for a worker, and the thread for it, if one is created.
unfoldable pub accept_one : Arrival → Outcome (ℕ × Option ℕ)
unfolding wait_for
accept_one a =
    if a.sock_addr
    then elim a.accept [
      | none ↦ ret (wait_for a.sem_getvalue 1 0 max_wait_worker, none)
      | some connfd ↦
          if a.thr_args
          then ret (
            wait_for a.sem_getvalue 1 0 max_wait_worker,
            (if a.create then some connfd else none),
          )
          else die 1
    ]
    else die 1

-- The loop over `listen_fds` after one `select`: the connections that have got a thread.
unfoldable pub accept_ready : (ℕ → Bool) → (ℕ → Arrival) → List ℕ → Outcome (List ℕ)
unfolding accept_one
accept_ready isset arrivals [] = ret []
accept_ready isset arrivals (fd ∷ fds) = elim (isset fd) [
  | false ↦ accept_ready isset arrivals fds
  | true ↦ do
    (slept, connection) ← accept_one (arrivals fd)
    connections ← accept_ready isset arrivals fds
    ret (elim connection [ none ↦ connections | some c ↦ c ∷ connections ])
]

-- The start of `network_start_server`, up to its loop; the numbers are the results of `pthread_attr_init`,
-- `pthread_attr_setdetachstate` and `sem_init`. `none` is a start that was refused.
unfoldable pub network_start_server :
    Bool → ℕ → ℕ → ℕ → (ℕ → Attempt) → List AddrInfo → Outcome (Option (List ℕ) × Retval)
unfolding network_start_listening
network_start_server initialized attr detach sem attempts listen =
    if initialized
    then ret (none, err)
    else if attr == 0 && detach == 0 && sem == 0
    then (do fds ← network_start_listening attempts listen; ret (some fds, ok))
    else ret (none, err)
