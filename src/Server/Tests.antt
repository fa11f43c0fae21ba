-- ===== src/Server/Tests.antt =====
-- Runs of src/network/srv/server.c on two names, one address of which can be listened on.
use agentsmith.Base.{ℕ, Bool, List, true, false, [], ◌∷◌, some, ◌==◌, ◌≡◌, arith, replicate}
use agentsmith.Base.Outcome.{ret}
use agentsmith.Queue.{Agent}
use agentsmith.Server.{Attempt, Arrival}
use agentsmith.Server.Listening.{AreSmall}
use agentsmith.Server.Loop.{Select, interrupted, failed, ready, server_thread, server_thread-served}

abbrev here : Agent
here = record { supported = true; sockaddr = replicate 16 2 }

abbrev attempts : ℕ → Attempt
attempts i = record { socket = some 5; bind = i == 1; listen = true }

attempts-AreSmall : AreSmall attempts
attempts-AreSmall i fd h = ground (arith, h)

-- Two connections arrive, the second of which gets no thread; a signal comes before.
abbrev arrival : ℕ → Bool → Arrival
arrival fd created = record {
  sock_addr = true;
  sem_getvalue = λ i. (0, 1);
  accept = some fd;
  thr_args = true;
  create = created;
}

abbrev answers : List Select
answers =
    interrupted
    ∷ ready (λ fd. true) (λ fd. arrival 7 true)
    ∷ ready (λ fd. true) (λ fd. arrival 8 false)
    ∷ failed
    ∷ []

server_thread-served_example :
    server_thread false 0 0 0 attempts ((here ∷ here ∷ []) ∷ (here ∷ []) ∷ []) answers
    ≡ ret (7 ∷ [])
server_thread-served_example =
    server_thread-served attempts ((here ∷ here ∷ []) ∷ (here ∷ []) ∷ []) answers attempts-AreSmall
      (omega arith)
