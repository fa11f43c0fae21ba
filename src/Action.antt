-- ===== src/Action.antt =====
-- src/threads.c: the callbacks of the action thread and of the maintenance thread, and one round of each. They
-- run an action script and hand new records to the client.
pub mod Rounds
pub mod Once
pub mod Kept
mod Tests
use agentsmith.Base.{
  ℕ, Bool, true, false, not, ◌&&◌, List, [], ◌∷◌, ◌++◌, Option, some, ◌==◌, if◌then◌else◌,
}
use agentsmith.Base.Outcome.{Outcome, ret, ◌>>=◌, ◌>>◌, assert, Retval, ok, err, Env}
use agentsmith.Base.Words.{sub64, signed_le32, signed_le64}
use agentsmith.Base.Cstring.{Bytes, same_str}
use agentsmith.Records.{HostRecord, Vector, localhost}
use agentsmith.Records.Maintenance.{records_enumerate, records_maintenance}
use agentsmith.Queue.{QueueEnv, is_addressed}
use agentsmith.Client.{Client, client_queue_flush, client_queue_record}

-- `enum ac_type`
pub data AcType : Type 0 where
  new remove : AcType

-- The parts of the command line: the action of the configuration, the address, the occurrences, the
-- type and the origin. `snprintf` prints them, with spaces between, and cuts the line to 2047 bytes.
pub record Command : Type 0 where
  pub action : Bytes
  pub ipaddr : Bytes
  pub occurrences : ℕ
  pub type : AcType
  pub origin : Bytes

-- CONFIG.action, CONFIG.inform and whether there are CONFIG.inform_agents; whether `access` finds the script;
-- the clock; and what the system answers to the client.
pub record ActionEnv : Type 0 where
  pub action : Bytes
  pub inform : ℕ
  pub inform_agents : Bool
  pub accessible : Bool
  pub now : ℕ
  pub queue : ℕ → QueueEnv
  pub memory : Bool

-- The client, and the commands given to `system` so far. Their results are only logged.
pub record Actions : Type 0 where
  pub client : Client
  pub commands : List Command

abbrev pub is_local : HostRecord → Bool
is_local r = same_str r.origin localhost

abbrev pub informs : ActionEnv → Bool
informs a = a.inform == 1 && a.inform_agents

-- The switch of `_do_action`: only a new record of this host is relayed.
unfoldable pub relay : ActionEnv → Client → HostRecord → AcType → Outcome Client
relay a c r remove = ret c
relay a c r new =
    if informs a
    then (if is_local r
        then (do
          assert (is_addressed r)
          (c', result) ← client_queue_record 2 a.queue a.memory c r
          ret c')
        else ret c)
    else ret c

abbrev pub command : ActionEnv → HostRecord → AcType → Command
command a r t = record {
  action = a.action;
  ipaddr = r.ipaddr;
  occurrences = r.occurrences;
  type = t;
  origin = r.origin;
}

-- `_do_action`
unfoldable pub do_action : ActionEnv → Actions → HostRecord → AcType → Outcome Actions
unfolding relay
do_action a s r t =
    if a.accessible
    then (do
      client ← relay a s.client r t
      ret (record { client = client; commands = s.commands ++ command a r t ∷ [] }))
    else ret s

-- The test of `_records_callback_action_new` for the action.
abbrev pub is_due : HostRecord → Bool
is_due r = signed_le32 r.action_threshold r.occurrences && r.processed == 0

-- Its test for the removal.
abbrev pub is_stale : ℕ → HostRecord → Bool
is_stale now r =
    if r.lastseen == 0
    then not (signed_le64 (sub64 now r.firstseen) r.purge_after)
    else not (signed_le64 (sub64 now r.lastseen) r.purge_after)

-- `_records_callback_action_new`
unfoldable pub records_callback_action_new :
    ActionEnv → Actions → HostRecord → Outcome (Actions × HostRecord × ℕ)
unfolding do_action
records_callback_action_new a s r =
    if is_due r
    then (do s' ← do_action a s r new; ret (s', record r { processed = 1 }, 0))
    else ret (s, if is_stale a.now r then record r { remove = 1 } else r, 0)

-- `threads_records_callback_action_removal`
unfoldable pub records_callback_action_removal : ActionEnv → Actions → HostRecord → Outcome Actions
unfolding do_action
records_callback_action_removal a s r = if r.processed == 0 then ret s else do_action a s r remove

-- The body of the loop of `action_thread`.
unfoldable pub action_round : ActionEnv → Env → Actions → Vector → Outcome (Actions × Vector)
unfolding records_callback_action_new records_enumerate client_queue_flush
action_round a e s v = do
  (s', v', r) ← records_enumerate (records_callback_action_new a) e s v
  if informs a
      then (do (c, r') ← client_queue_flush a.queue s'.client; ret (record s' { client = c }, v'))
      else ret (s', v')

-- The body of the loop of `maintenance_thread`.
unfoldable pub maintenance_round : ActionEnv → Env → Actions → Vector → Outcome (Actions × Vector)
unfolding records_callback_action_removal records_maintenance
maintenance_round a e s v = do
  (s', v', r) ← records_maintenance (some (records_callback_action_removal a)) e s v
  ret (s', v')
