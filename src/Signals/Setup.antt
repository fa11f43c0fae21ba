-- ===== src/Signals/Setup.antt =====
-- `signalhandler_setup` of src/sighandler.c: which signal gets which handler.
use agentsmith.Base.{Bool, List, [], ◌∷◌, if◌then◌else◌}
use agentsmith.Base.Outcome.{Outcome, ret, aborted, ◌>>=◌}
use agentsmith.Signals.{Signal, hup, usr1, usr2, termination, fatal, unhandled}

-- The signals by their names in <signal.h>.
pub data Name : Type 0 where
  sigalrm sigcont sigtstp siginfo sigio sigpipe sigpoll sigprof sigttin sigttou sigurg sigvtalrm
        sigwinch :
      Name
  sigabrt sigbus sigemt sigfpe sigill sigiot sigsegv sigsys sigtrap sigxcpu sigxfsz : Name
  sigquit sigterm sigint sigusr1 sigusr2 sighup : Name

-- What the system has and answers: the names that it defines of the three that are optional, the result of
-- `sigprocmask`, and whether `sigaction` succeeds for a signal.
pub record SetupEnv : Type 0 where
  pub has_siginfo : Bool
  pub has_sigpoll : Bool
  pub has_sigemt : Bool
  pub sigprocmask : Bool
  pub sigaction : Name → Bool

abbrev all_of : Signal → List Name → List (Name × Signal) → List (Name × Signal)
all_of s [] rest = rest
all_of s (n ∷ ns) rest = (n, s) ∷ all_of s ns rest

abbrev when : Bool → Name → List Name → List Name
when b n ns = if b then n ∷ ns else ns

-- The calls of `sigaction`, in their order.
unfoldable pub dispositions : SetupEnv → List (Name × Signal)
dispositions e =
    all_of unhandled
      (sigalrm
        ∷ sigcont
        ∷ sigtstp
        ∷ when e.has_siginfo siginfo (
            sigio
            ∷ sigpipe
            ∷ when e.has_sigpoll sigpoll
                (sigprof ∷ sigttin ∷ sigttou ∷ sigurg ∷ sigvtalrm ∷ sigwinch ∷ [])))
      (all_of fatal
        (sigabrt
          ∷ sigbus
          ∷ when e.has_sigemt sigemt
              (sigfpe ∷ sigill ∷ sigiot ∷ sigsegv ∷ sigsys ∷ sigtrap ∷ sigxcpu ∷ sigxfsz ∷ []))
        (all_of termination (sigquit ∷ sigterm ∷ sigint ∷ [])
          ((sigusr1, usr1) ∷ (sigusr2, usr2) ∷ (sighup, hup) ∷ [])))

-- One call after the other: the first that fails aborts the program.
unfoldable pub install : (Name → Bool) → List (Name × Signal) → Outcome (List (Name × Signal))
install sigaction [] = ret []
install sigaction ((n, s) ∷ rest) =
    if sigaction n
    then (do installed ← install sigaction rest; ret ((n, s) ∷ installed))
    else aborted

-- `signalhandler_setup`: the handlers that are installed.
unfoldable pub signalhandler_setup : SetupEnv → Outcome (List (Name × Signal))
unfolding dispositions install
signalhandler_setup e = if e.sigprocmask then install e.sigaction (dispositions e) else aborted
