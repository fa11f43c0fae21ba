-- ===== src/Client/Starting.antt =====
-- `client_start` of src/network/cli/client.c: one empty queue for each agent, up to the limit.
use agentsmith.Base.{ℕ, zero, suc, true, List, [], ◌∷◌, map, take, ltb, ◌≡◌, refl, arith, length}
use agentsmith.Base.Outcome.{ret, ok}
use agentsmith.Queue.{Agent, Queue, client_queue_init}
use agentsmith.Client.{Client, max_client_queues, start_queues, client_start}
use agentsmith.Client.Delivery.{IsRunning}

-- Every agent has an address of a family that is supported.
abbrev pub AllUsable : List Agent → Type 0
AllUsable [] = Unit
AllUsable (a ∷ agents) =
    (ltb 0 (length a.sockaddr) ≡ true) × (a.supported ≡ true) × AllUsable agents

abbrev pub empty_queue : Agent → Queue
empty_queue a = record { agent = a; head = [] }

start_queues_served :
    (room : ℕ) (agents : List Agent)
    → AllUsable agents
    → start_queues (client_queue_init true 0 0 0) room agents
      ≡ ret (map empty_queue (take room agents))
unfolding start_queues client_queue_init
start_queues_served zero agents h = refl
start_queues_served (suc room) [] h = refl
start_queues_served (suc room) (a ∷ agents) h =
    rw (h.0, h.1) (rw (start_queues_served room agents h.2) refl)

-- What `client_start` leaves.
pub record Started (agents : List Agent) (c : Client) : Type 0 where
  pub returns : client_start true 0 0 0 agents ≡ ret (c, ok)
  pub running : IsRunning c
  pub queues : c.queues ≡ map empty_queue (take max_client_queues agents)

-- When the system grants everything and every agent has an address of a supported family, `client_start`
-- succeeds: the client runs, and has an empty queue for each of the first 256 agents, in their order.
pub client_start-Started :
    (agents : List Agent) → AllUsable agents → (c : Client) × Started agents c
unfolding client_start
client_start-Started agents h = (
  record { started = true; queues = map empty_queue (take max_client_queues agents); pending = [] },
  record {
    returns = rw (start_queues_served max_client_queues agents h) refl;
    running = record { runs = refl; fits = omega arith; addressed = tt };
    queues = refl;
  },
)
