-- ===== src/Threads/Tests.antt =====
-- A run of the threads: the log shows an address, the action thread has a round and hands the record to the client,
-- the worker of the queue sends it, another agent sends a record, and the maintenance thread and a signal come after it.
use agentsmith.Base.{
  ℕ, true, false, List, [], ◌∷◌, ◌++◌, none, some, ◌≡◌, refl, arith, length, replicate,
}
use agentsmith.Base.Outcome.{Outcome, ret, die, aborted, undefined, Returns}
use agentsmith.Samples.{numbers, serving, address, attack, known, line_env, address_line}
use agentsmith.Program.Samples.{boot, settings}
use agentsmith.Queue.{Queue, RoundEnv, worker_round}
use agentsmith.Action.{ActionEnv, action_round, maintenance_round}
use agentsmith.Watch.{Pcre, regex_do}
use agentsmith.Watch.Kept.{CapturesFit}
use agentsmith.Worker.{Peer, do_command}
use agentsmith.Signals.{SignalEnv, usr2, handle}
use agentsmith.Settings.{Settings}
use agentsmith.Program.{CommandLine, System, set_up}
use agentsmith.Threads.{
  Live, store_of, actions, tables, process, begun, here, Reach, begin, later, line, act, send,
  receive, maintain, signal,
}
use agentsmith.Threads.Safety.{IsSafe, Reach-IsSafe}

abbrev expression : Pcre
expression = record {
  compiles = true;
  studies = true;
  fullinfo = 0;
  capturecount = 1;
  exec = λ text. (2, 0, 7);
}

expression-CapturesFit : CapturesFit expression
expression-CapturesFit text = omega arith

abbrev in_foreground : CommandLine
in_foreground = record { cfgfile = none; pidfile = none; testonly = false; daemonmode = false }

-- One occurrence is enough.
abbrev strict : Settings
strict = record settings { numbers = record numbers { action_threshold = 1 } }

abbrev acting : ActionEnv
acting = record {
  action = b'/' ∷ b'a' ∷ [];
  inform = 1;
  inform_agents = true;
  accessible = true;
  now = 5000;
  queue = λ j. record { lock = 0; entry = λ i. true; copy = λ i. true };
  memory = true;
}

abbrev connected : RoundEnv
connected = record { socket = λ i. true; connect = λ i. true; handshake = true }

abbrev peer : Peer
peer = record {
  remote_authoritative = 1;
  inet = known;
  host = address;
  exclude = serving;
  records = serving;
}

abbrev asked : SignalEnv
asked = record {
  thread = true;
  call = serving;
  calloc = true;
  inet = known;
  exclude = none;
  file = none;
}

abbrev State : Type 0
State = (s : Live) × Reach expression boot in_foreground strict s

result : {A : Type 0} (m : Outcome A) → Returns m (λ a. Unit) → (a : A) × (m ≡ ret a)
result (ret a) h = (a, refl)
result (die n) h = absurd h
result aborted h = absurd h
result undefined h = absurd h

unfoldable started : State
unfolding set_up agentsmith.Slots.unstarted result agentsmith.Program.start_tls
    agentsmith.Tls.netssl_initialize agentsmith.Program.read_exclude
    agentsmith.Program.launch_exclude_readfile agentsmith.Exclude.File.exclude_readfile
    agentsmith.Base.Outcome.locked agentsmith.Base.Cstring.c_str
started = let (y, h) = result (set_up expression boot in_foreground strict) tt in (begun y, begin h)

unfoldable noticed : State
unfolding started regex_do result agentsmith.Base.Cstring.c_str
    agentsmith.Exclude.Address.exclude_parse_ip agentsmith.Exclude.Rules.find_address
    agentsmith.Exclude.Rules.to_address
noticed =
    let (t, h) =
      result (regex_do expression strict.numbers known line_env (store_of started.0) address_line)
        tt in
    (_, later started.1 (line known line_env address_line h))

unfoldable acted : State
unfolding noticed action_round result agentsmith.Base.equal agentsmith.Client.client_queue_record
acted =
    let (t, h) = result (action_round acting serving (actions noticed.0) noticed.0.vector) tt in
    (_, later noticed.1 (act acting serving h))

abbrev first : List Queue → Queue
first [] = record { agent = record { supported = false; sockaddr = [] }; head = [] }
first (q ∷ qs) = q

unfoldable sent : State
unfolding acted worker_round result agentsmith.Wire.net_command_to_buff
sent =
    let (t, h) = result (worker_round connected 3 (first acted.0.client.queues)) tt in
    (_, later acted.1 (send (here connected h)))

unfoldable received : State
unfolding sent do_command result agentsmith.Worker.add_received agentsmith.Exclude.Address.contains
    agentsmith.Worker.insert_received agentsmith.Worker.from_peer
    agentsmith.Records.records_add_record
received =
    let (t, h) =
      result (do_command peer (tables sent.0) (0, record attack { occurrences = 5 }, 144)) tt in
    (_, later sent.1 (receive peer 0 (record attack { occurrences = 5 }) 144 h))

unfoldable purged : State
unfolding received handle result
purged =
    let (t, h) = result (handle asked (process received.0) usr2) tt in
    (_, later received.1 (signal asked usr2 h))

unfoldable maintained : State
unfolding purged maintenance_round result
maintained =
    let (t, h) = result (maintenance_round acting serving (actions purged.0) purged.0.vector) tt in
    (_, later purged.1 (maintain acting serving h))

Reach-IsSafe_example : IsSafe maintained.0
Reach-IsSafe_example =
    Reach-IsSafe expression boot in_foreground strict maintained.0 expression-CapturesFit
      maintained.1

-- The round has queued the record, and the command for it was given.
acted_once : (length (first acted.0.client.queues).head ≡ 1) × (length acted.0.commands ≡ 1)
unfolding acted
acted_once = (refl, refl)
