-- ===== src/Program/Run.antt =====
-- `main` of src/main.c from its arguments to its end.
pub mod Finishing
mod Tests
use agentsmith.Base.{ℕ, Bool, true, false, List, [], Option, none, some}
use agentsmith.Base.Outcome.{Outcome, ret, die, ◌>>=◌, ◌>>◌, Retval}
use agentsmith.Base.Cstring.{Bytes}
use agentsmith.Exclude.Rules.{Inet}
use agentsmith.Action.{ActionEnv, Actions, records_callback_action_removal}
use agentsmith.Watch.{Pcre, Store, LineEnv, count}
use agentsmith.Follow.{Following, RoundEnv, follow_start, follow_rounds}
use agentsmith.Settings.{Settings, Defaults}
use agentsmith.Settings.Addresses.{Names}
use agentsmith.Settings.File.{config_read}
use agentsmith.Program.{
  Argument, CommandLine, Thread, read_arguments, become_daemon, use_pidfile, BootEnv, System,
  set_up, tear_down,
}

-- What the system answers to the program: `fork`, the configuration file and what is asked while it is read, the
-- pid file, the start of the parts, the log with its size and inode when it is opened, the rounds until the
-- stop, `inet_pton` and the calls for each line, and what `pthread_join` returns for each thread.
pub record MainEnv : Type 0 where
  pub fork : Option ℕ
  pub defaults : Defaults
  pub names : Names
  pub access : Bytes → ℕ → Bool
  pub granted : Bool
  pub config : Option Bytes
  pub fopen : Bytes → Bool
  pub boot : BootEnv
  pub opens : Bool
  pub log : Option (ℕ × ℕ)
  pub seeks : Bool
  pub rounds : List RoundEnv
  pub inet : Inet
  pub line : ℕ → LineEnv
  pub join : Thread → ℕ

-- The locals of `main` before the options.
abbrev pub no_options : CommandLine
no_options = record { cfgfile = none; pidfile = none; testonly = false; daemonmode = true }

-- `main` up to the configuration, of which `s` is what is in CONFIG before.
unfoldable pub configure : MainEnv → List Argument → Settings → Outcome (CommandLine × Settings)
unfolding read_arguments become_daemon config_read use_pidfile
configure e arguments s = do
  l ← read_arguments arguments no_options
  become_daemon l.daemonmode e.fork
  (s', r) ← config_read e.defaults e.names e.access e.granted e.config s
  s'' ← use_pidfile l e.fopen s'
  ret (l, s'')

-- From there to the return of `follow`, where the threads for action, maintenance and the server, the workers of
-- the queues and the signals have no turn.
unfoldable pub watch : Pcre → MainEnv → CommandLine → Settings → Outcome System
unfolding set_up follow_start follow_rounds
watch p e l s = do
  y ← set_up p e.boot l s
  f ← follow_start e.opens e.log e.seeks []
  (f', (n, store)) ← follow_rounds (count p s.numbers e.inet e.line) e.rounds f (0, y.store)
  ret (record y { store = store })

-- `main`. That it returns here stands for its `exit(0)`.
unfoldable pub main :
    Pcre → MainEnv → ActionEnv → List Argument → Settings → Outcome (Actions × System)
unfolding configure watch records_callback_action_removal tear_down
main p e a arguments s = do
  (l, s') ← configure e arguments s
  y ← watch p e l s'
  tear_down e.boot.openssl e.join (records_callback_action_removal a)
      (record { client = y.client; commands = [] }) y
