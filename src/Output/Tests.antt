-- ===== src/Output/Tests.antt =====
-- Runs of src/output.c: a message to the console, then errors to the log of the system.
use agentsmith.Base.{List, [], ◌∷◌, some, ◌≡◌, false}
use agentsmith.Base.Cstring.{Bytes}
use agentsmith.Output.{
  syslog, console, initial, Call, done, settype, err_call, msg_call, syserr_call, run,
}
use agentsmith.Output.Channels.{lines, meant, open_after, left_open, run-channels}

abbrev hello : Bytes
hello = b'h' ∷ b'i' ∷ []

abbrev calls : List Call
calls =
    msg_call hello
    ∷ settype syslog
    ∷ err_call hello
    ∷ settype syslog
    ∷ syserr_call hello (b' ' ∷ hello)
    ∷ done
    ∷ settype console
    ∷ []

run-channels_example :
    (lines (run initial calls).effects ≡ meant console calls)
    × (open_after false (run initial calls).effects ≡ some (left_open false calls))
    × ((run initial calls).syslog_init ≡ left_open false calls)
run-channels_example = run-channels calls
