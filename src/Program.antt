-- ===== src/Program.antt =====
-- src/main.c and the start of the threads in src/threads.c: the command line, and how the parts are set up and
-- torn down.
pub mod Starting
pub mod Run
pub mod Samples
pub mod Kept
pub mod Secure
mod Tests
use agentsmith.Base.{
  ℕ, zero, suc, Bool, true, false, not, ◌&&◌, ◌||◌, List, [], ◌∷◌, Option, none, some, ◌==◌,
  if◌then◌else◌,
}
use agentsmith.Base.Outcome.{Outcome, ret, die, undefined, ◌>>=◌, ◌>>◌, Retval, ok, err, Env}
use agentsmith.Base.Cstring.{Bytes, strncpy}
use agentsmith.Slots.{unstarted}
use agentsmith.Records.{HostRecord, records_init}
use agentsmith.Records.Maintenance.{records_destroy}
use agentsmith.Exclude.Rules.{Inet, RuleTable, exclude_init, exclude_destroy}
use agentsmith.Exclude.File.{exclude_readfile}
use agentsmith.Queue.{Agent}
use agentsmith.Client.{Client, client_start, client_stop}
use agentsmith.Watch.{Pcre, Store, regex_prepare}
use agentsmith.Tls.{Openssl, Tls, fresh, netssl_initialize, netssl_disintegrate}
use agentsmith.Settings.{max_path, AddrInfo, Settings}
use agentsmith.Signals.{Signal}
use agentsmith.Signals.Setup.{Name, SetupEnv, signalhandler_setup}

-- What `getopt` gives for the options c, p, d, h, t, L and V.
pub data Argument : Type 0 where
  config_file pid_file : Bytes → Argument
  foreground help test license version unknown : Argument

-- The locals of `main` that the options set.
pub record CommandLine : Type 0 where
  pub cfgfile : Option Bytes
  pub pidfile : Option Bytes
  pub testonly : Bool
  pub daemonmode : Bool

-- The loop over the options; help, license and version end the program with success.
unfoldable pub read_arguments : List Argument → CommandLine → Outcome CommandLine
read_arguments [] l = ret l
read_arguments (config_file name ∷ more) l = read_arguments more (record l { cfgfile = some name })
read_arguments (pid_file name ∷ more) l = read_arguments more (record l { pidfile = some name })
read_arguments (foreground ∷ more) l = read_arguments more (record l { daemonmode = false })
read_arguments (test ∷ more) l =
    read_arguments more (record l { testonly = true; daemonmode = false })
read_arguments (help ∷ more) l = die 0
read_arguments (license ∷ more) l = die 0
read_arguments (version ∷ more) l = die 0
read_arguments (unknown ∷ more) l = die 1

-- The process goes to the background: `fork` gives nothing, 0 to the child, or a pid to the parent. The
-- status of a `return (-1)` is 255.
unfoldable pub become_daemon : Bool → Option ℕ → Outcome (Unit {0})
become_daemon false fork = ret tt
become_daemon true none = die 255
become_daemon true (some zero) = ret tt
become_daemon true (some (suc pid)) = die 0

-- The pid file of the command line takes precedence.
abbrev with_pidfile : Option Bytes → Settings → Settings
with_pidfile none s = s
with_pidfile (some name) s = record s { pidfile = strncpy max_path name }

-- It is written when in the background; `fopen` says whether it can be.
unfoldable pub use_pidfile : CommandLine → (Bytes → Bool) → Settings → Outcome Settings
use_pidfile l fopen s =
    let s' = with_pidfile l.pidfile s in
    if l.daemonmode then (if fopen s'.pidfile then ret s' else die 1) else ret s'

-- What the thread of the exclude file meets: its calls, `calloc` for the new list, `inet_pton`, and the file.
pub record ExcludeRun : Type 0 where
  pub call : Env
  pub calloc : Bool
  pub inet : Inet
  pub file : Option Bytes

-- The start of that thread: the results for its attributes and for its creation, and its run, which is none if it
-- does not begin before the log is followed.
pub record Reader : Type 0 where
  pub attr : ℕ
  pub detach : ℕ
  pub create : ℕ
  pub run : Option ExcludeRun

-- The threads of src/threads.c.
pub data Thread : Type 0 where
  action maintenance server : Thread

-- What the system answers while the parts are set up: memory and mutex for the two vectors, OpenSSL, the handlers, the
-- creation of the three threads, and memory, mutex, condition and thread for the queues.
pub record BootEnv : Type 0 where
  pub records_calloc : Bool
  pub records_mutex : ℕ
  pub exclude_calloc : Bool
  pub exclude_mutex : ℕ
  pub openssl : Openssl
  pub signals : SetupEnv
  pub reader : Reader
  pub action_thread : ℕ
  pub maintenance_thread : ℕ
  pub server_thread : ℕ
  pub memory : Bool
  pub mutex : ℕ
  pub cond : ℕ
  pub create : ℕ

-- The configuration, the records and the exclude list, the contexts of OpenSSL, the client, the handlers and the threads that run.
pub record System : Type 0 where
  pub settings : Settings
  pub store : Store
  pub tls : Tls
  pub client : Client
  pub handlers : List (Name × Signal)
  pub threads : List Thread

-- `exclude_readfile`: the thread is started if each call succeeds.
unfoldable pub launch_exclude_readfile : Reader → Retval
launch_exclude_readfile r =
    if r.attr == 0
    then (if r.detach == 0 then (if r.create == 0 then ok else err) else err)
    else err

abbrev pub run_reader : Retval → Option ExcludeRun → Settings → RuleTable → Outcome RuleTable
run_reader err run s t = ret t
run_reader ok none s t = ret t
run_reader ok (some run) s t =
    exclude_readfile run.call run.calloc run.inet t (some s.exclude) run.file

-- The exclude list when the log begins to be followed: the thread has read the file by then, or has not begun.
unfoldable pub read_exclude : Reader → Settings → RuleTable → Outcome RuleTable
unfolding launch_exclude_readfile
read_exclude r s t = run_reader (launch_exclude_readfile r) r.run s t

-- The threads that a configuration asks for.
abbrev pub running : Settings → List Thread
running s = action ∷ maintenance ∷ (if s.numbers.server == 0 then [] else server ∷ [])

-- `threads_start`: a thread that cannot be created ends the program.
unfoldable pub threads_start : BootEnv → Settings → Outcome (List Thread)
threads_start e s =
    if e.action_thread == 0 && e.maintenance_thread == 0
    then (if s.numbers.server == 0
        then ret (running s)
        else if e.server_thread == 0
        then ret (running s)
        else die 1)
    else die 1

abbrev pub same_thread : Thread → Thread → Bool
same_thread action action = true
same_thread maintenance maintenance = true
same_thread server server = true
same_thread action maintenance = false
same_thread action server = false
same_thread maintenance action = false
same_thread maintenance server = false
same_thread server action = false
same_thread server maintenance = false

abbrev without : Thread → List Thread → List Thread
without t [] = []
without t (u ∷ us) = let rest = without t us in if same_thread t u then rest else u ∷ rest

-- `pthread_cancel` and `pthread_join`, whose failures are only logged.
abbrev pub join_thread : (Thread → ℕ) → Thread → List Thread → List Thread
join_thread join t ts = if join t == 0 then without t ts else ts

-- `threads_stop`, where every `pthread_join` returns.
unfoldable pub threads_stop : (Thread → ℕ) → Settings → List Thread → List Thread
threads_stop join s ts = join_thread join action (
    join_thread join maintenance (if s.numbers.server == 0 then ts else join_thread join server ts))

-- `ptr->addr->ai_addr` of each item: the first address of a name.
unfoldable pub first_addresses : List AddrInfo → Outcome (List Agent)
first_addresses [] = ret []
first_addresses ([] ∷ more) = undefined
first_addresses ((a ∷ chain) ∷ more) = do rest ← first_addresses more; ret (a ∷ rest)

-- The client before it is started.
abbrev pub idle : Client
idle = record { started = false; queues = []; pending = [] }

abbrev pub start_agents : BootEnv → List AddrInfo → Outcome Client
start_agents e agents = do
  firsts ← first_addresses agents
  (c, r) ← client_start e.memory e.mutex e.cond e.create firsts
  elim r [ ok ↦ ret c | err ↦ die 1 ]

abbrev is_nobody : List AddrInfo → Bool
is_nobody [] = true
is_nobody (a ∷ more) = false

-- `CONFIG.inform == 1 && CONFIG.inform_agents != NULL`
abbrev pub informs_agents : Settings → Bool
informs_agents s = s.numbers.inform == 1 && not (is_nobody s.inform_agents)

unfoldable pub start_client : BootEnv → Settings → Outcome Client
unfolding first_addresses client_start
start_client e s = if informs_agents s then start_agents e s.inform_agents else ret idle

-- `CONFIG.inform == 1 || CONFIG.server == 1`
abbrev pub needs_tls : Settings → Bool
needs_tls s = s.numbers.inform == 1 || s.numbers.server == 1

unfoldable pub start_tls : Openssl → Settings → Outcome Tls
start_tls o s = if needs_tls s then netssl_initialize o s fresh else ret fresh

unfoldable pub stop_tls : Openssl → Settings → Tls → Outcome Tls
stop_tls o s t = if needs_tls s then netssl_disintegrate o s t else ret t

-- `main` from the regular expression to the start of the client; a test of the configuration ends there. The
-- result of `exclude_readfile` is dropped.
unfoldable pub set_up : Pcre → BootEnv → CommandLine → Settings → Outcome System
unfolding regex_prepare records_init exclude_init read_exclude signalhandler_setup threads_start
    start_client
set_up p e l s = do
  regex_prepare p
  if l.testonly then die 0 else (do
    vector ← records_init e.records_calloc e.records_mutex unstarted
    tls ← start_tls e.openssl s
    empty ← exclude_init e.exclude_calloc e.exclude_mutex unstarted
    rules ← read_exclude e.reader s empty
    handlers ← signalhandler_setup e.signals
    threads ← threads_start e s
    client ← start_client e s
    ret (record {
      settings = s;
      store = record { vector = vector; rules = rules; compiled = true };
      tls = tls;
      client = client;
      handlers = handlers;
      threads = threads;
    }))

-- `main` behind `follow`, with the results of the joins and the callback for the records that are left.
unfoldable pub tear_down :
    {S : Type 0}
    → Openssl
    → (Thread → ℕ)
    → (S → HostRecord → Outcome S)
    → S
    → System
    → Outcome (S × System)
unfolding client_stop threads_stop records_destroy exclude_destroy
tear_down o join cb a y = do
  let client = if informs_agents y.settings then (client_stop y.client).0 else y.client
  let threads = threads_stop join y.settings y.threads
  (a', vector) ← records_destroy (some cb) a y.store.vector
  tls ← stop_tls o y.settings y.tls
  ret (
    a',
    record y {
      client = client;
      threads = threads;
      store = record y.store { vector = vector; rules = exclude_destroy y.store.rules };
      tls = tls;
    },
  )
