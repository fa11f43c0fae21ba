-- ===== src/Signals.antt =====
-- src/sighandler.c: what the handlers of the signals do to the records, the exclude list and the log follower.
pub mod Purge
pub mod Setup
pub mod Kept
mod Tests
use agentsmith.Base.{
  ℕ, ◌+◌, Bool, true, false, List, [], ◌∷◌, ◌++◌, Option, none, some, if◌then◌else◌,
}
use agentsmith.Base.Outcome.{Outcome, ret, die, ◌>>=◌, ◌>>◌, assert, Retval, ok, err, Env}
use agentsmith.Base.Cstring.{Bytes}
use agentsmith.Records.{HostRecord, Vector}
use agentsmith.Records.Maintenance.{records_enumerate}
use agentsmith.Exclude.Rules.{Inet, RuleTable}
use agentsmith.Exclude.File.{exclude_readfile}

-- The signals that `signalhandler_setup` sets a handler for, by the handler that they get.
pub data Signal : Type 0 where
  hup usr1 usr2 termination fatal unhandled : Signal

-- The vector, the exclude list, the flag that stops the follower, and the records that were printed.
pub record Process : Type 0 where
  pub vector : Vector
  pub rules : RuleTable
  pub stop : Bool
  pub printed : List HostRecord

-- What the system answers: the start of the thread of an asynchronous enumeration (attributes, memory and
-- the thread itself), the calls under the mutex, `calloc`, `inet_pton`, CONFIG.exclude and its file.
pub record SignalEnv : Type 0 where
  pub thread : Bool
  pub call : Env
  pub calloc : Bool
  pub inet : Inet
  pub exclude : Option Bytes
  pub file : Option Bytes

-- `_records_callback_output`; the text that it prints is made of the members.
unfoldable pub records_callback_output :
    List HostRecord → HostRecord → Outcome (List HostRecord × HostRecord × ℕ)
records_callback_output printed r = ret (printed ++ r ∷ [], r, 0)

-- `_records_callback_remove_all`
unfoldable pub records_callback_remove_all :
    Unit {0} → HostRecord → Outcome (Unit {0} × HostRecord × ℕ)
records_callback_remove_all u r = ret (tt, record r { remove = 1 }, 0)

-- `records_enumerate` in the mode ASYNC, with the thread that it starts: the thread holds the mutex, as an
-- enumeration in the mode SYNC does, and its result is lost.
unfoldable pub enumerate_async :
    {S : Type 0}
    → (S → HostRecord → Outcome (S × HostRecord × ℕ))
    → Bool
    → Env
    → S
    → Vector
    → Outcome (S × Vector × Retval)
unfolding records_enumerate
enumerate_async cb thread e s v = do
  assert v.initialized
  if thread
      then (do (s', v', r) ← records_enumerate cb e s v; ret (s', v', ok))
      else ret (s, v, err)

-- The handlers; results are only logged. SIGHUP reads the exclude file in a thread of its own.
unfoldable pub handle : SignalEnv → Process → Signal → Outcome Process
unfolding enumerate_async records_callback_output records_callback_remove_all exclude_readfile
handle e p hup =
    if e.thread
    then (do
      rules ← exclude_readfile e.call e.calloc e.inet p.rules e.exclude e.file
      ret (record p { rules = rules }))
    else ret p
handle e p usr1 = do
  (printed, v, r) ← enumerate_async records_callback_output e.thread e.call p.printed p.vector
  ret (record p { printed = printed; vector = v })
handle e p usr2 = do
  (u, v, r) ← enumerate_async records_callback_remove_all e.thread e.call tt p.vector
  ret (record p { vector = v })
handle e p termination = ret (record p { stop = true })
handle e p fatal = die 2
handle e p unhandled = ret p
