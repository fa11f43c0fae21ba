-- ===== src/Threads/Safety.antt =====
-- What holds whatever the threads of the program do, in whatever order, with whatever answers of the system.
use agentsmith.Base.{some, refl, ◌≡◌, ℕ, List, refl, ◌≤◌, length}
use agentsmith.Base.Outcome.{ret, Env, returned, IfReturns, Passes}
use agentsmith.Config.{Config}
use agentsmith.Records.{HostRecord, records_add_ip, records_add_record}
use agentsmith.Slots.Layout.{IsLaidOut}
use agentsmith.Records.Lookup.{IsValid}
use agentsmith.Base.Cstring.{Bytes, c_str}
use agentsmith.Queue.{Queue, QueueEnv, worker_round}
use agentsmith.Client.{client_queue_flush}
use agentsmith.Client.Passing.{worker_round-Sends, AllSend}
use agentsmith.Client.Kept.{IsBounded, AllOwn, AllQueues}
use agentsmith.Exclude.File.{exclude_readfile}
use agentsmith.Exclude.Kept.{exclude_readfile-LaidOut}
use agentsmith.Program.Starting.{contexts}
use agentsmith.Signals.Setup.{Name}
use agentsmith.Action.{
  Actions, records_callback_action_removal, ActionEnv, action_round, maintenance_round,
}
use agentsmith.Action.Kept.{Steady, action_round-Steady, maintenance_round-Steady}
use agentsmith.Watch.{Pcre, regex_do}
use agentsmith.Watch.Kept.{CapturesFit, Keeps, regex_do-Keeps}
use agentsmith.Worker.{do_command}
use agentsmith.Worker.Kept.{Kept, do_command-Kept}
use agentsmith.Signals.{Signal, handle}
use agentsmith.Signals.Kept.{IsSound, handle-IsSound}
use agentsmith.Settings.{Settings}
use agentsmith.Program.{BootEnv, CommandLine, System, Thread, set_up, tear_down}
use agentsmith.Program.Kept.{IsBegun, set_up-IsBegun}
use agentsmith.Threads.{
  exclude, ended, Live, store_of, actions, tables, process, Turn, here, there, Step, line, act,
  maintain, receive, send, signal, Reach, begin, later,
}

-- The vector is valid, the exclude list is laid out, and the client is within its bounds.
pub record IsSafe (s : Live) : Type 0 where
  pub valid : IsValid s.vector
  pub laid_out : IsLaidOut s.rules
  pub bounded : IsBounded s.client

-- The contexts are those of the start.
abbrev pub HasContexts : BootEnv → Settings → Live → Type 0
HasContexts e c s = s.tls ≡ contexts e c

Turn-AllQueues :
    {tries : ℕ} {qs qs' : List Queue} → Turn tries qs qs' → AllQueues qs → AllQueues qs'
Turn-AllQueues {tries} (here {q} {q'} e h) w =
    let (sent, k) = worker_round-Sends q w.0 e tries in
    (returned (λ (bytes, x). AllOwn x.head) (worker_round e tries q) h (rw (k, IfReturns) tt), w.1)
Turn-AllQueues (there t) w = (w.0, Turn-AllQueues t w.1)

pub Step-IsSafe :
    {p : Pcre} {c : Settings} {s t : Live} → CapturesFit p → Step p c s t → IsSafe s → IsSafe t
Step-IsSafe {p} {c} {s} fits (exclude e calloc net file h) w =
    let k =
      returned IsLaidOut (exclude_readfile e calloc net s.rules (some c.exclude) file) h
        (exclude_readfile-LaidOut e calloc net s.rules (some c.exclude) file w.laid_out) in
    record { valid = w.valid; laid_out = k; bounded = w.bounded }
Step-IsSafe {p} {c} {s} fits (line net e buff h) w =
    let (v, k) =
      returned (Keeps s.rules) (regex_do p c.numbers net e (store_of s) buff) h
        (regex_do-Keeps p c.numbers net e (store_of s) buff fits w.valid) in
    record { valid = v; laid_out = rw k w.laid_out; bounded = w.bounded }
Step-IsSafe {p} {c} {s} fits (act a e h) w =
    let (b, v) =
      returned Steady (action_round a e (actions s) s.vector) h
        (action_round-Steady a e (actions s) s.vector w.bounded w.valid) in
    record { valid = v; laid_out = w.laid_out; bounded = b }
Step-IsSafe {p} {c} {s} fits (maintain a e h) w =
    let (b, v) =
      returned Steady (maintenance_round a e (actions s) s.vector) h
        (maintenance_round-Steady a e (actions s) s.vector w.bounded w.valid) in
    record { valid = v; laid_out = w.laid_out; bounded = b }
Step-IsSafe {p} {c} {s} fits (receive peer command r n h) w =
    let (v, k) =
      returned (λ (t', more). Kept s.rules t') (do_command peer (tables s) (command, r, n)) h
        (do_command-Kept peer s.rules (tables s) command r n (w.valid, refl)) in
    record { valid = v; laid_out = rw k w.laid_out; bounded = w.bounded }
Step-IsSafe {p} {c} {s} fits (send t) w = record {
  valid = w.valid;
  laid_out = w.laid_out;
  bounded = record {
    fits = w.bounded.fits;
    own = w.bounded.own;
    queued = Turn-AllQueues t w.bounded.queued;
  };
}
Step-IsSafe {p} {c} {s} fits (signal e k h) w =
    let sound =
      returned IsSound (handle e (process s) k) h
        (handle-IsSound e (process s) k (record { valid = w.valid; laid_out = w.laid_out })) in
    record { valid = sound.valid; laid_out = sound.laid_out; bounded = w.bounded }

-- However the program was started and whatever turns its threads took, each a call that returned, in whatever order
-- and with whatever answers of the system, the vector is valid, the exclude list is laid out, and the client
-- holds at most 25 records besides its queues; all records that wait to be sent have the origin localhost and an
-- address of more than two bytes. The condition is that what the regular expression captures is at most
-- 45 bytes long.
pub Reach-IsSafe :
    (p : Pcre) (e : BootEnv) (l : CommandLine) (c : Settings) (s : Live)
    → CapturesFit p
    → Reach p e l c s
    → IsSafe s
Reach-IsSafe p e l c s fits (begin {y} h) =
    let b = returned (IsBegun e c) (set_up p e l c) h (set_up-IsBegun p e l c) in
    record { valid = b.valid; laid_out = b.laid_out; bounded = b.bounded }
Reach-IsSafe p e l c s fits (later {s = r} reach step) =
    Step-IsSafe fits step (Reach-IsSafe p e l c r fits reach)

-- What can be done next.
pub record IsGoing (e : BootEnv) (c : Settings) (s : Live) : Type 0 where
  pub flushes : (e : ℕ → QueueEnv) → Passes (client_queue_flush e s.client)
  pub maintains : (a : ActionEnv) (e : Env) → Passes (maintenance_round a e (actions s) s.vector)
  pub sends : AllSend s.client.queues
  pub lines_kept :
      (e : Env) (c : Config) (ipaddr : Bytes)
      → length (c_str ipaddr) ≤ 45
      → Passes (records_add_ip c e s.vector ipaddr)
  pub received_kept : (e : Env) (r : HostRecord) → Passes (records_add_record e s.vector r)
  pub ends :
      (a : ActionEnv) (join : Thread → ℕ) (handlers : List (Name × Signal))
      → (z : Actions × System) × (tear_down e.openssl join
            (records_callback_action_removal a)
            (actions s)
            (ended c handlers s)
          ≡ ret z)
