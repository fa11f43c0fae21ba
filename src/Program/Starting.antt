-- ===== src/Program/Starting.antt =====
-- What `main` in src/main.c has set up when it begins to follow the log.
use agentsmith.Base.{
  Bool, true, false, List, [], ◌∷◌, Option, none, some, sym, ap, map, take, ◌≡◌, refl, ◌∙◌, inl,
  inr, arith, if◌then◌else◌, Bool-cases,
}
use agentsmith.Base.Outcome.{ret, Retval, ok, err, returned, IfReturns}
use agentsmith.Base.Cstring.{Bytes}
use agentsmith.Slots.{chunk, unstarted, start}
use agentsmith.Slots.Layout.{IsLaidOut, start-IsLaidOut}
use agentsmith.Records.{records_init}
use agentsmith.Records.Lookup.{view, IsValid}
use agentsmith.Records.Starting.{IsUnique-replicate, lookup-replicate}
use agentsmith.Exclude.Rules.{Address, RuleTable, exclude_init}
use agentsmith.Exclude.File.{exclude_readfile}
use agentsmith.Exclude.Kept.{exclude_readfile-LaidOut}
use agentsmith.Exclude.Membership.{covered}
use agentsmith.Exclude.Refusing.{covered-replicate}
use agentsmith.Queue.{Agent}
use agentsmith.Client.{Client, max_client_queues, client_start}
use agentsmith.Client.Delivery.{IsRunning}
use agentsmith.Client.Starting.{AllUsable, empty_queue, client_start-Started}
use agentsmith.Watch.{Pcre, regex_prepare}
use agentsmith.Settings.{AddrInfo, Settings}
use agentsmith.Tls.{Tls, fresh}
use agentsmith.Tls.Secured.{is_usable, secured, netssl_initialize-secured, disintegrated}
use agentsmith.Signals.{Signal}
use agentsmith.Signals.Setup.{Name, dispositions, install, signalhandler_setup}
use agentsmith.Program.{
  CommandLine, BootEnv, System, threads_start, first_addresses, idle, informs_agents, needs_tls,
  start_tls, stop_tls, start_agents, start_client, set_up, Reader, ExcludeRun,
  launch_exclude_readfile, run_reader, read_exclude, running,
}

-- The first address of each name.
abbrev pub heads : List AddrInfo → List Agent
heads [] = []
heads ([] ∷ more) = heads more
heads ((a ∷ chain) ∷ more) = a ∷ heads more

-- `getaddrinfo` has found an address for each name.
abbrev pub AllFound : List AddrInfo → Type 0
AllFound [] = Unit
AllFound ([] ∷ more) = ⊥
AllFound ((a ∷ chain) ∷ more) = AllFound more

first_addresses_lem :
    (agents : List AddrInfo) → AllFound agents → first_addresses agents ≡ ret (heads agents)
unfolding first_addresses
first_addresses_lem [] w = refl
first_addresses_lem ([] ∷ more) w = absurd w
first_addresses_lem ((a ∷ chain) ∷ more) w = rw (first_addresses_lem more w) refl

install_lem :
    (sigaction : Name → Bool) (list : List (Name × Signal))
    → ((n : Name) → sigaction n ≡ true)
    → install sigaction list ≡ ret list
unfolding install
install_lem sigaction [] w = refl
install_lem sigaction ((n, s) ∷ list) w = rw (w n) (rw (install_lem sigaction list w) refl)

-- The expression is good and has one capture, the program is not only to test the configuration, the thread of the
-- exclude file comes to its end if it begins, and the system grants everything else.
pub record IsGranted (p : Pcre) (e : BootEnv) (l : CommandLine) (s : Settings) : Type 0 where
  pub compiles : (p.compiles ≡ true) × (p.studies ≡ true) × (p.fullinfo ≡ 0) × (p.capturecount ≡ 1)
  pub stays : l.testonly ≡ false
  pub records : (e.records_calloc ≡ true) × (e.records_mutex ≡ 0)
  pub exclude : (e.exclude_calloc ≡ true) × (e.exclude_mutex ≡ 0)
  pub secure :
      needs_tls s ≡ true → (is_usable e.openssl s ≡ true) × (e.openssl.verify_param_new ≡ true)
  pub rules : RuleTable
  pub reads : read_exclude e.reader s (start unstarted) ≡ ret rules
  pub masks : e.signals.sigprocmask ≡ true
  pub handles : (n : Name) → e.signals.sigaction n ≡ true
  pub threads : (e.action_thread ≡ 0) × (e.maintenance_thread ≡ 0) × (e.server_thread ≡ 0)
  pub queues : (e.memory ≡ true) × (e.mutex ≡ 0) × (e.cond ≡ 0) × (e.create ≡ 0)
  pub found : AllFound s.inform_agents
  pub usable : AllUsable (heads s.inform_agents)

-- The client has a queue for each agent that is to be informed, and is idle if there is none.
abbrev pub HasQueues : Settings → Client → Type 0
HasQueues s c =
    if informs_agents s
    then IsRunning c × (c.queues ≡ map empty_queue (take max_client_queues (heads s.inform_agents)))
    else c ≡ idle

-- The contexts of the parts that are configured, if one is.
abbrev pub contexts : BootEnv → Settings → Tls
contexts e s = if needs_tls s then secured e.openssl s else fresh

start_tls_lem :
    (e : BootEnv) (s : Settings)
    → (needs_tls s ≡ true → (is_usable e.openssl s ≡ true) × (e.openssl.verify_param_new ≡ true))
    → start_tls e.openssl s ≡ ret (contexts e s)
unfolding start_tls
start_tls_lem e s h = elim (Bool-cases (needs_tls s)) [
  | inr n ↦ rw n refl
  | inl n ↦ rw n (netssl_initialize-secured e.openssl s ∙ rw ((h n).0, (h n).1) refl)
]

-- What is left of the contexts.
abbrev pub no_contexts : Settings → Tls
no_contexts s = if needs_tls s then record fresh { initialized = true } else fresh

pub stop_tls_lem :
    (e : BootEnv) (s : Settings) → stop_tls e.openssl s (contexts e s) ≡ ret (no_contexts s)
unfolding stop_tls
stop_tls_lem e s = elim (Bool-cases (needs_tls s)) [
  | inr n ↦ rw n refl
  | inl n ↦ rw n (disintegrated e.openssl s)
]

-- The exclude list is what the thread of the exclude file makes of an empty one, or covers nothing if the thread was
-- not created or has not begun.
abbrev pub AreRead : Retval → Option ExcludeRun → Settings → RuleTable → Type 0
AreRead ok (some run) s rules =
    exclude_readfile run.call run.calloc run.inet (start unstarted) (some s.exclude) run.file
    ≡ ret rules
AreRead ok none s rules = (a : Address) → covered a rules.slots ≡ false
AreRead err run s rules = (a : Address) → covered a rules.slots ≡ false

-- The parts as they are when the log begins to be followed.
pub record IsUp (e : BootEnv) (s : Settings) (y : System) : Type 0 where
  pub settings : y.settings ≡ s
  pub valid : IsValid y.store.vector
  pub no_records : (j : Bytes) → view y.store.vector j ≡ none
  pub laid_out : IsLaidOut y.store.rules
  pub rules : AreRead (launch_exclude_readfile e.reader) e.reader.run s y.store.rules
  pub tls : y.tls ≡ contexts e s
  pub compiled : y.store.compiled ≡ true
  pub handlers : y.handlers ≡ dispositions e.signals
  pub threads : y.threads ≡ running s
  pub client : HasQueues s y.client

start_agents_lem :
    (e : BootEnv) (agents : List AddrInfo) (c : Client)
    → (e.memory ≡ true) × (e.mutex ≡ 0) × (e.cond ≡ 0) × (e.create ≡ 0)
    → AllFound agents
    → client_start true 0 0 0 (heads agents) ≡ ret (c, ok)
    → start_agents e agents ≡ ret c
start_agents_lem e agents c (m, x, d, t) w h =
    rw (first_addresses_lem agents w) (rw (m, x, d, t) (rw h refl))

start_client-HasQueues :
    (p : Pcre) (e : BootEnv) (l : CommandLine) (s : Settings)
    → IsGranted p e l s
    → (c : Client) × (start_client e s ≡ ret c) × HasQueues s c
unfolding start_client
start_client-HasQueues p e l s g = elim (Bool-cases (informs_agents s)) [
  | inr h ↦ (idle, rw h refl, rw h refl)
  | inl h ↦
      let (c, started) = client_start-Started (heads s.inform_agents) g.usable in
      (
        c,
        rw h (start_agents_lem e s.inform_agents c g.queues g.found started.returns),
        rw h (started.running, started.queues),
      )
]

pub read_exclude-LaidOut :
    (r : Reader) (s : Settings) (t : RuleTable)
    → IsLaidOut t
    → IfReturns IsLaidOut (read_exclude r s t)
unfolding read_exclude
read_exclude-LaidOut r s t w = read (launch_exclude_readfile r) r.run
  where
    read : (v : Retval) (run : Option ExcludeRun) → IfReturns IsLaidOut (run_reader v run s t)
    read err run = w
    read ok none = w
    read ok (some run) =
        exclude_readfile-LaidOut run.call run.calloc run.inet t (some s.exclude) run.file w

reader_lem :
    (r : Reader) (s : Settings) {rules : RuleTable}
    → read_exclude r s (start unstarted) ≡ ret rules
    → AreRead (launch_exclude_readfile r) r.run s rules
unfolding read_exclude start unstarted
reader_lem r s {rules} h = read (launch_exclude_readfile r) r.run h
  where
    empty : ret (start unstarted) ≡ ret rules → (a : Address) → covered a rules.slots ≡ false
    empty h a =
        let same : start unstarted ≡ rules = cc in
        ap (λ t. covered a t.slots) (sym same) ∙ covered-replicate a chunk

    read :
        (v : Retval) (run : Option ExcludeRun)
        → run_reader v run s (start unstarted) ≡ ret rules
        → AreRead v run s rules
    read err run h = empty h
    read ok none h = empty h
    read ok (some run) h = h

threads_start_lem :
    (p : Pcre) (e : BootEnv) (l : CommandLine) (s : Settings)
    → IsGranted p e l s
    → threads_start e s ≡ ret (running s)
unfolding threads_start
threads_start_lem p e l s g = ground (arith, g.threads.0, g.threads.1, g.threads.2)

-- When the system grants everything to `main`, the expression is good and every agent has an address, `main` sets
-- all parts up without an exit or a failed assertion. When it begins to follow the log, the vector is valid and
-- has no record, the expression is compiled, every signal has its handler, the threads for action and maintenance are
-- created and that of the server if it is configured, and there is an empty queue for each agent if any are to be
-- informed. The exclude list is in order, and it is what the thread of `exclude_readfile` makes of the empty list and
-- the configured file; it covers nothing if that thread could not be created or has not begun by then. (If the thread
-- begins before, it comes to its end before; the other threads have no turn before.)
pub set_up-IsUp :
    (p : Pcre) (e : BootEnv) (l : CommandLine) (s : Settings)
    → IsGranted p e l s
    → (y : System) × (set_up p e l s ≡ ret y) × IsUp e s y
unfolding set_up regex_prepare records_init exclude_init signalhandler_setup unstarted start
set_up-IsUp p e l s g =
    let (c, h, q) = start_client-HasQueues p e l s g in
    let (k0, k1, k2, k3) = g.compiles in
    let (r0, r1) = g.records in
    let (x0, x1) = g.exclude in
    (
      record {
        settings = s;
        store = record { vector = start unstarted; rules = g.rules; compiled = true };
        tls = contexts e s;
        client = c;
        handlers = dispositions e.signals;
        threads = running s;
      },
      rw (k0, k1, k2, k3, g.stays, r0, r1)
          (rw (start_tls_lem e s g.secure) (
            rw (x0, x1)
              (rw g.reads (
                rw g.masks (
                  rw (install_lem e.signals.sigaction (dispositions e.signals) g.handles)
                    (rw (threads_start_lem p e l s g) (rw h refl))))))),
      record {
        settings = refl;
        valid = record {
          laid_out = start-IsLaidOut unstarted refl refl;
          unique = IsUnique-replicate chunk;
        };
        no_records = λ j. lookup-replicate j chunk;
        laid_out = returned IsLaidOut (read_exclude e.reader s (start unstarted)) g.reads (
            read_exclude-LaidOut e.reader s (start unstarted)
              (start-IsLaidOut unstarted refl refl));
        rules = reader_lem e.reader s g.reads;
        tls = refl;
        compiled = refl;
        handlers = refl;
        threads = refl;
        client = q;
      },
    )
