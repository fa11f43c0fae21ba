-- ===== src/Server/Loop.antt =====
-- The loop of `network_start_server` in src/network/srv/server.c around `select`: which connections get a thread.
use agentsmith.Base.{
  ℕ, ◌<◌, Bool, true, false, ◌&&◌, List, [], ◌∷◌, ◌++◌, none, some, ◌≡◌, refl, arith, inl, inr,
  if◌then◌else◌, Bool-cases,
}
use agentsmith.Base.Outcome.{Outcome, ret, die, ◌>>=◌}
use agentsmith.Settings.{AddrInfo}
use agentsmith.Server.{fd_setsize, Attempt, Arrival, accept_one, accept_ready, network_start_server}
use agentsmith.Server.Listening.{
  AreSmall, opened_fds, total_length, network_start_listening-opened_fds,
}

-- What `select` gives: EINTR, another error, or the sockets that are ready with what arrives at each.
pub data Select : Type 0 where
  interrupted failed : Select
  ready : (isset : ℕ → Bool) (arrivals : ℕ → Arrival) → Select

-- The loop over the results of `select`, of which there are no more when the thread is cancelled: the
-- connections that have got a thread.
unfoldable pub server_loop : List ℕ → List Select → Outcome (List ℕ)
unfolding accept_ready
server_loop fds [] = ret []
server_loop fds (interrupted ∷ more) = server_loop fds more
server_loop fds (failed ∷ more) = ret []
server_loop fds (ready isset arrivals ∷ more) = do
  connections ← accept_ready isset arrivals fds
  rest ← server_loop fds more
  ret (connections ++ rest)

-- There is memory for what arrives.
abbrev pub has_memory : Arrival → Bool
has_memory a = a.sock_addr && (elim a.accept [ none ↦ true | some fd ↦ a.thr_args ])

-- The connection, if it is accepted and its thread created.
abbrev pub threaded : Arrival → List ℕ
threaded a = elim a.accept [ none ↦ [] | some fd ↦ if a.create then fd ∷ [] else [] ]

abbrev pub all_memory : (isset : ℕ → Bool) (arrivals : ℕ → Arrival) → List ℕ → Bool
all_memory isset arrivals [] = true
all_memory isset arrivals (fd ∷ fds) =
    (if isset fd then has_memory (arrivals fd) else true) && all_memory isset arrivals fds

abbrev pub all_threaded : (isset : ℕ → Bool) (arrivals : ℕ → Arrival) → List ℕ → List ℕ
all_threaded isset arrivals [] = []
all_threaded isset arrivals (fd ∷ fds) =
    (if isset fd then threaded (arrivals fd) else []) ++ all_threaded isset arrivals fds

-- The rounds until `select` fails.
abbrev pub rounds : List Select → List ((ℕ → Bool) × (ℕ → Arrival))
rounds [] = []
rounds (interrupted ∷ more) = rounds more
rounds (failed ∷ more) = []
rounds (ready isset arrivals ∷ more) = (isset, arrivals) ∷ rounds more

abbrev pub memory_throughout : List ℕ → List ((ℕ → Bool) × (ℕ → Arrival)) → Bool
memory_throughout fds [] = true
memory_throughout fds ((isset, arrivals) ∷ more) =
    all_memory isset arrivals fds && memory_throughout fds more

abbrev pub served : List ℕ → List ((ℕ → Bool) × (ℕ → Arrival)) → List ℕ
served fds [] = []
served fds ((isset, arrivals) ∷ more) = all_threaded isset arrivals fds ++ served fds more

accept_ready_lem :
    (isset : ℕ → Bool) (arrivals : ℕ → Arrival) (fds : List ℕ)
    → accept_ready isset arrivals fds
      ≡ (if all_memory isset arrivals fds then ret (all_threaded isset arrivals fds) else die 1)
unfolding accept_ready accept_one
accept_ready_lem isset arrivals [] = refl
accept_ready_lem isset arrivals (fd ∷ fds) = ground (arith, accept_ready_lem isset arrivals fds)

-- The loop of the server ends the program exactly when memory is missing for a connection that arrives before
-- `select` fails. Otherwise each socket that is ready gives one connection, which gets one thread if it is accepted and
-- the thread can be created, in the order of the rounds and of the sockets; an interrupted `select` changes nothing.
pub server_loop-served :
    (fds : List ℕ) (answers : List Select)
    → server_loop fds answers ≡ (
        if memory_throughout fds (rounds answers) then ret (served fds (rounds answers)) else die 1)
unfolding server_loop
server_loop-served fds [] = refl
server_loop-served fds (interrupted ∷ more) = server_loop-served fds more
server_loop-served fds (failed ∷ more) = refl
server_loop-served fds (ready isset arrivals ∷ more) =
    elim (Bool-cases (all_memory isset arrivals fds)) [
      | inr h ↦ rw (accept_ready_lem isset arrivals fds) (rw h refl)
      | inl h ↦ rw (accept_ready_lem isset arrivals fds) (
          rw h (
            rw (server_loop-served fds more)
              (elim (Bool-cases (memory_throughout fds (rounds more))) [
                | inl k ↦ rw k refl
                | inr k ↦ rw k refl
              ])))
    ]

-- `server_thread` of src/threads.c: the start of the server and its loop.
unfoldable pub server_thread :
    Bool → (attr detach sem : ℕ) → (ℕ → Attempt) → List AddrInfo → List Select → Outcome (List ℕ)
unfolding network_start_server server_loop
server_thread initialized attr detach sem attempts listen answers = do
  (sockets, r) ← network_start_server initialized attr detach sem attempts listen
  elim sockets [ none ↦ ret [] | some fds ↦ server_loop fds answers ]

-- When less than FD_SETSIZE addresses are configured and the descriptors are below FD_SETSIZE, a server that was not yet
-- initialized and whose thread attributes and semaphore are granted listens on every socket that can be opened, bound and
-- listened on. It ends the program exactly when memory is missing for a connection that arrives before `select`
-- fails. Otherwise each ready socket gives one connection, which gets one thread if it is accepted and the thread can
-- be created, in the order of the rounds of `select` and, within a round, of the configured addresses; an
-- interrupted `select` changes nothing.
pub server_thread-served :
    (attempts : ℕ → Attempt) (listen : List AddrInfo) (answers : List Select)
    → AreSmall attempts
    → total_length listen < fd_setsize
    → server_thread false 0 0 0 attempts listen answers ≡ (
        if memory_throughout (opened_fds attempts 0 (total_length listen)) (rounds answers)
        then ret (served (opened_fds attempts 0 (total_length listen)) (rounds answers))
        else die 1)
unfolding server_thread network_start_server
server_thread-served attempts listen answers small h =
    rw (network_start_listening-opened_fds attempts listen small h)
      (server_loop-served (opened_fds attempts 0 (total_length listen)) answers)
