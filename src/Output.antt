-- ===== src/Output.antt =====
-- src/output.c: messages to the console or to the log of the system.
pub mod Channels
mod Tests
use agentsmith.Base.{ℕ, Bool, true, false, List, [], ◌∷◌, ◌++◌, take, if◌then◌else◌}
use agentsmith.Base.Cstring.{Bytes}

-- `outtype_t`
pub data Outtype : Type 0 where
  syslog console : Outtype

-- LOG_ERR and LOG_INFO, or `stderr` and `stdout`.
pub data Level : Type 0 where
  error info : Level

-- What reaches the system: the log is opened or closed, or a line is written.
pub data Effect : Type 0 where
  openlog closelog : Effect
  written : Outtype → Level → Bytes → Effect

-- OTYPE and SYSLOG_INIT, and the effects so far.
pub record Output : Type 0 where
  pub otype : Outtype
  pub syslog_init : Bool
  pub effects : List Effect

-- As the program starts.
abbrev pub initial : Output
initial = record { otype = console; syslog_init = false; effects = [] }

abbrev emit : Output → Effect → Output
emit o x = record o { effects = o.effects ++ x ∷ [] }

-- `vsnprintf` to a buffer of BUFFSIZE bytes: the text, cut to 1023 bytes.
abbrev pub cut_text : Bytes → Bytes
cut_text text = take 1023 text

abbrev close_log : Output → Output
close_log o = if o.syslog_init then record (emit o closelog) { syslog_init = false } else o

-- `out_done`
unfoldable pub out_done : Output → Output
out_done o = close_log o

-- `out_settype`
unfoldable pub out_settype : Output → Outtype → Output
out_settype o syslog =
    record (if o.syslog_init then o else record (emit o openlog) { syslog_init = true }) {
      otype = syslog;
    }
out_settype o console = record (close_log o) { otype = console }

-- `out_gettype`
unfoldable pub out_gettype : Output → Outtype
out_gettype o = o.otype

-- `out_err`, with the text that the format gives.
unfoldable pub out_err : Output → Bytes → Output
out_err o text = emit o (written o.otype error (cut_text text))

-- `out_msg`
unfoldable pub out_msg : Output → Bytes → Output
out_msg o text = emit o (written o.otype info (cut_text text))

-- `out_syserr`: the cut text, then the number and the description of the error in parentheses, and all of it cut again.
unfoldable pub out_syserr : Output → (text errval : Bytes) → Output
out_syserr o text errval = emit o (written o.otype error (cut_text (cut_text text ++ errval)))

-- The calls, and what they do one after the other.
pub data Call : Type 0 where
  done : Call
  settype : Outtype → Call
  err_call msg_call : Bytes → Call
  syserr_call : (text errval : Bytes) → Call

abbrev pub call : Output → Call → Output
call o done = out_done o
call o (settype t) = out_settype o t
call o (err_call text) = out_err o text
call o (msg_call text) = out_msg o text
call o (syserr_call text errval) = out_syserr o text errval

abbrev pub run : Output → List Call → Output
run o [] = o
run o (c ∷ cs) = run (call o c) cs
