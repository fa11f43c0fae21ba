-- ===== src/Program/Run/Finishing.antt =====
-- What a run of `main` in src/main.c does while the other threads have no turn: it reads the exclude file, counts what
-- the log tells, and ends with `exit(0)`.
use agentsmith.Base.{
  ℕ, zero, suc, Bool, true, List, [], ◌∷◌, ◌++◌, none, some, ◌==◌, ◌≡◌, refl, sym, ap, ◌∙◌, inl,
  inr, if◌then◌else◌, Bool-cases, length,
}
use agentsmith.Base.Outcome.{ret, ◌>>=◌, bind_assoc}
use agentsmith.Base.Cstring.{Bytes}
use agentsmith.Records.{HostRecord, Vector}
use agentsmith.Records.Lookup.{IsValid}
use agentsmith.Records.Maintenance.{Slots, notify, report_all, records_destroy}
use agentsmith.Action.{
  ActionEnv, Actions, command, remove, relay, do_action, records_callback_action_removal,
}
use agentsmith.Watch.{Pcre, Store, count}
use agentsmith.Follow.{Following, follow_start, follow_rounds}
use agentsmith.Follow.Lines.{IsPartial, AllLines, concat_lines}
use agentsmith.Follow.Growth.{growing}
use agentsmith.Follow.Counted.{AllCountable, Holds, count_lines, follow_rounds-Holds}
use agentsmith.Settings.{Settings}
use agentsmith.Client.{Client, client_stop}
use agentsmith.Exclude.Rules.{RuleTable, exclude_destroy}
use agentsmith.Program.{
  Argument, CommandLine, BootEnv, System, Thread, informs_agents, launch_exclude_readfile,
  threads_stop, tear_down,
}
use agentsmith.Program.Starting.{
  IsGranted, AreRead, contexts, no_contexts, stop_tls_lem, set_up-IsUp,
}
use agentsmith.Program.Run.{MainEnv, configure, watch, main}

-- The removal callback returns, whatever it is given.
removal_returns :
    (a : ActionEnv) (s : Actions) (r : HostRecord)
    → (s' : Actions) × (records_callback_action_removal a s r ≡ ret s')
unfolding records_callback_action_removal do_action relay
removal_returns a s r = elim (Bool-cases (r.processed == 0)) [
  | inl h ↦ (s, rw h refl)
  | inr h ↦ elim (Bool-cases a.accessible) [
    | inl k ↦ (
      record { client = s.client; commands = s.commands ++ command a r remove ∷ [] },
      rw (h, k) refl,
    )
    | inr k ↦ (s, rw (h, k) refl)
  ]
]

report_all_returns :
    (a : ActionEnv) (s : Actions) (slots : Slots) (n : ℕ)
    → (s' : Actions) × (report_all (some (records_callback_action_removal a)) s slots n ≡ ret s')
unfolding report_all notify
report_all_returns a s slots zero = (s, refl)
report_all_returns a s [] (suc n) = (s, refl)
report_all_returns a s (none ∷ slots) (suc n) = report_all_returns a s slots n
report_all_returns a s (some r ∷ slots) (suc n) =
    let (s', h) = removal_returns a s r in
    let (s'', k) = report_all_returns a s' slots n in (s'', rw h k)

pub tear_down_returns :
    (e : BootEnv) (join : Thread → ℕ) (a : ActionEnv) (s : Actions) (y : System)
    → IsValid y.store.vector
    → y.tls ≡ contexts e y.settings
    → (z : Actions × System) × (tear_down e.openssl join (records_callback_action_removal a) s y
        ≡ ret z)
unfolding tear_down records_destroy
tear_down_returns e join a s y w t =
    let (s', h) = report_all_returns a s y.store.vector.slots y.store.vector.size in
    let client : Client =
      if informs_agents y.settings then (client_stop y.client).0 else y.client in
    let left : Vector = record y.store.vector { slots = [] } in
    let store : Store = record y.store { vector = left; rules = exclude_destroy y.store.rules } in
    (
      (
        s',
        record y {
          client = client;
          threads = threads_stop join y.settings y.threads;
          store = store;
          tls = no_contexts y.settings;
        },
      ),
      rw w.laid_out.started (rw h (rw t (rw (stop_tls_lem e y.settings) refl))),
    )

-- A run that ends well: the system when the log is left, and the end.
pub record Finished (p : Pcre) (e : MainEnv) (a : ActionEnv) (arguments : List Argument)
    (l : CommandLine) (before s : Settings) (lines : List Bytes) : Type 0 where
  pub up : System
  pub watches : watch p e l s ≡ ret up
  pub rules : RuleTable
  pub read : AreRead (launch_exclude_readfile e.boot.reader) e.boot.reader.run s rules
  pub counts :
      Holds p s.numbers e.inet e.line rules
        (count_lines p s.numbers e.inet e.line rules 0 lines (λ j. none))
        up.store
  pub result : Actions × System
  pub finishes : main p e a arguments before ≡ ret result

-- The arguments and the file give a configuration, the system grants everything, and the log, which is there
-- when it is opened, grows by some lines and the start of one more, in whatever portions. Every line either
-- does not match or its capture is one whole address. The threads for action, maintenance and the server, the workers
-- of the queues and the signals have no turn, the thread of the exclude file either comes to its end before the log is
-- followed or does not begin, and every `pthread_join` at the end returns, with whatever result. Then `main` comes to
-- `exit(0)`, and when it leaves the log every address has what these lines make of no record, in their order, with
-- the exclude list that the thread has made of the exclude file, or that covers nothing if it could not be created or did
-- not begin.
pub main-Finished :
    (p : Pcre) (e : MainEnv) (a : ActionEnv) (arguments : List Argument) (l : CommandLine)
    (before s : Settings) (again : Bool) (ino : ℕ) (content rest : Bytes) (xs lines : List Bytes)
    → configure e arguments before ≡ ret (l, s)
    → IsGranted p e.boot l s
    → (e.opens ≡ true) × (e.log ≡ some (length content, ino)) × (e.seeks ≡ true)
    → e.rounds ≡ growing again content xs
    → concat_lines xs ≡ concat_lines lines ++ rest
    → AllLines lines
    → IsPartial rest
    → AllCountable p e.inet e.line 0 lines
    → Finished p e a arguments l before s lines
unfolding watch main
main-Finished p e a arguments l before s again ino content rest xs lines configured g (o, k, q)
      rounds split w r c =
    let (y, up, is) = set_up-IsUp p e.boot l s g in
    let held : Holds p s.numbers e.inet e.line y.store.rules (λ j. none) y.store = record {
      refines = record { valid = is.valid; holds = is.no_records };
      same_rules = refl;
      ready = inl is.compiled;
    } in
    let (t, h, counted) =
      follow_rounds-Holds p s.numbers e.inet e.line y.store.rules again ino content rest xs lines
        (λ j. none) y.store split w r is.laid_out c held in
    let system : System = record y { store = t } in
    let watched : watch p e l s ≡ ret system = rw up (
      rw (o, k, q, rounds)
        (sym (
            bind_assoc (follow_start true (some (length content, ino)) true [])
              (λ f.
                follow_rounds (count p s.numbers e.inet e.line) (growing again content xs) f
                  (0, y.store))
              (λ (r : Following × (ℕ × Store)). ret (record y { store = r.1.1 })))
          ∙ ap (λ x. x >>= λ r. ret (record y { store = r.1.1 })) h)) in
    let (z, ends) =
      tear_down_returns e.boot e.join a (record { client = y.client; commands = [] }) system
        counted.refines.valid (is.tls ∙ rw is.settings refl) in
    record {
      up = system;
      watches = watched;
      rules = y.store.rules;
      read = is.rules;
      counts = record {
        refines = counted.refines;
        same_rules = counted.same_rules;
        ready = counted.ready;
      };
      result = z;
      finishes = rw configured (rw watched ends);
    }
