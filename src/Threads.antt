-- ===== src/Threads.antt =====
-- The threads of the program over what they share: src/main.c starts them, and the log follower, the two threads
-- of src/threads.c, the workers of src/network/srv/worker.c and src/network/cli/clientqueue.c and the signal handlers
-- then take turns in any order. A turn is one call of the part, which returns; what the system answers to it is
-- open.
pub mod Safety
mod Tests
use agentsmith.Base.{Option, some, ℕ, ◌^◌, ltb, if◌then◌else◌, Bool, false, List, [], ◌∷◌, ◌≡◌}
use agentsmith.Base.Outcome.{ret, Env}
use agentsmith.Base.Cstring.{Bytes}
use agentsmith.Records.{HostRecord, Vector}
use agentsmith.Exclude.Rules.{Inet, RuleTable}
use agentsmith.Exclude.File.{exclude_readfile}
use agentsmith.Queue.{Queue, RoundEnv, worker_round}
use agentsmith.Client.{Client}
use agentsmith.Action.{ActionEnv, Actions, Command, action_round, maintenance_round}
use agentsmith.Watch.{Pcre, Store, LineEnv, regex_do}
use agentsmith.Worker.{Peer, Tables, do_command}
use agentsmith.Signals.Setup.{Name}
use agentsmith.Signals.{Signal, Process, SignalEnv, handle}
use agentsmith.Tls.{Tls}
use agentsmith.Settings.{Settings}
use agentsmith.Program.{BootEnv, CommandLine, System, running, set_up}

-- What the threads share: the vector, the exclude list, whether the expression is compiled, the contexts of OpenSSL, the client with its
-- queues, the commands given to `system`, the flag that stops the follower, and the records that were printed.
pub record Live : Type 0 where
  pub vector : Vector
  pub rules : RuleTable
  pub compiled : Bool
  pub tls : Tls
  pub client : Client
  pub commands : List Command
  pub stop : Bool
  pub printed : List HostRecord

abbrev pub store_of : Live → Store
store_of s = record { vector = s.vector; rules = s.rules; compiled = s.compiled }

abbrev pub actions : Live → Actions
actions s = record { client = s.client; commands = s.commands }

abbrev pub tables : Live → Tables
tables s = record { vector = s.vector; rules = s.rules }

abbrev pub process : Live → Process
process s = record { vector = s.vector; rules = s.rules; stop = s.stop; printed = s.printed }

-- When `main` begins to follow the log.
abbrev pub begun : System → Live
begun y = record {
  vector = y.store.vector;
  rules = y.store.rules;
  compiled = y.store.compiled;
  tls = y.tls;
  client = y.client;
  commands = [];
  stop = false;
  printed = [];
}

-- How often `while (retries < CONFIG.inform_retry)` tries at most: not at all if the 32-bit number is negative.
abbrev pub tries_of : ℕ → ℕ
tries_of n = if ltb n (2 ^ 31) then n else 0

-- One of the queues has a round of its worker.
pub data Turn (tries : ℕ) : List Queue → List Queue → Type 0 where
  here :
      {q q' : Queue} {qs : List Queue} {sent : List Bytes} (e : RoundEnv)
      → worker_round e tries q ≡ ret (sent, q')
      → Turn tries (q ∷ qs) (q' ∷ qs)
  there : {q : Queue} {qs qs' : List Queue} → Turn tries qs qs' → Turn tries (q ∷ qs) (q ∷ qs')

-- The thread that `exclude_readfile` starts in `main` reads the exclude file, if it has not before, a line of the log is handled, the action thread or the maintenance thread has a round, a command of a peer
-- is taken, a queue is sent, or a signal comes.
pub data Step (p : Pcre) (c : Settings) (s : Live) : Live → Type 0 where
  exclude :
      {rules : RuleTable} (e : Env) (calloc : Bool) (net : Inet) (file : Option Bytes)
      → exclude_readfile e calloc net s.rules (some c.exclude) file ≡ ret rules
      → Step p c s (record s { rules = rules })
  line :
      {t : Store} (net : Inet) (e : LineEnv) (buff : Bytes)
      → regex_do p c.numbers net e (store_of s) buff ≡ ret t
      → Step p c s (record s { vector = t.vector; rules = t.rules; compiled = t.compiled })
  act :
      {a' : Actions} {v : Vector} (a : ActionEnv) (e : Env)
      → action_round a e (actions s) s.vector ≡ ret (a', v)
      → Step p c s (record s { vector = v; client = a'.client; commands = a'.commands })
  maintain :
      {a' : Actions} {v : Vector} (a : ActionEnv) (e : Env)
      → maintenance_round a e (actions s) s.vector ≡ ret (a', v)
      → Step p c s (record s { vector = v; client = a'.client; commands = a'.commands })
  receive :
      {t : Tables} {more : Bool} (peer : Peer) (command : ℕ) (r : HostRecord) (n : ℕ)
      → do_command peer (tables s) (command, r, n) ≡ ret (t, more)
      → Step p c s (record s { vector = t.vector; rules = t.rules })
  send :
      {qs : List Queue}
      → Turn (tries_of c.numbers.inform_retry) s.client.queues qs
      → Step p c s (record s { client = record s.client { queues = qs } })
  signal :
      {p' : Process} (e : SignalEnv) (k : Signal)
      → handle e (process s) k ≡ ret p'
      → Step p c s
          (record s { vector = p'.vector; rules = p'.rules; stop = p'.stop; printed = p'.printed })

-- The states that the program comes to after its start.
pub data Reach (p : Pcre) (e : BootEnv) (l : CommandLine) (c : Settings) : Live → Type 0 where
  begin : {y : System} → set_up p e l c ≡ ret y → Reach p e l c (begun y)
  later : {s t : Live} → Reach p e l c s → Step p c s t → Reach p e l c t

-- What `main` tears down when it leaves the log.
abbrev pub ended : Settings → List (Name × Signal) → Live → System
ended c handlers s = record {
  settings = c;
  store = store_of s;
  tls = s.tls;
  client = s.client;
  handlers = handlers;
  threads = running c;
}
