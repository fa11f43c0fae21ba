-- ===== src/Output/Channels.antt =====
-- Where the messages of src/output.c go, and when it opens and closes the log.
use agentsmith.Base.{
  Bool, true, false, List, [], ◌∷◌, ◌++◌, Option, some, none, ◌≡◌, refl, sym, ap, ◌∙◌, inl, inr,
  Bool-cases, append-nil, append_assoc,
}
use agentsmith.Base.Cstring.{Bytes}
use agentsmith.Output.{
  Outtype, syslog, console, Level, error, info, Effect, openlog, closelog, written, Output, initial,
  cut_text, out_done, out_settype, out_err, out_msg, out_syserr, Call, done, settype, err_call,
  msg_call, syserr_call, run,
}

-- The lines of the effects.
abbrev pub lines : List Effect → List (Outtype × Level × Bytes)
lines [] = []
lines (openlog ∷ xs) = lines xs
lines (closelog ∷ xs) = lines xs
lines (written t l text ∷ xs) = (t, l, text) ∷ lines xs

-- The lines that the calls mean to write: each goes to the type that was set last.
abbrev pub meant : Outtype → List Call → List (Outtype × Level × Bytes)
meant t [] = []
meant t (done ∷ cs) = meant t cs
meant t (settype u ∷ cs) = meant u cs
meant t (err_call text ∷ cs) = (t, error, cut_text text) ∷ meant t cs
meant t (msg_call text ∷ cs) = (t, info, cut_text text) ∷ meant t cs
meant t (syserr_call text errval ∷ cs) = (t, error, cut_text (cut_text text ++ errval)) ∷ meant t cs

-- Whether the log is open behind the effects; none if it is opened twice or closed while it is not open.
abbrev pub open_after : Bool → List Effect → Option Bool
open_after b [] = some b
open_after true (openlog ∷ xs) = none
open_after false (openlog ∷ xs) = open_after true xs
open_after true (closelog ∷ xs) = open_after false xs
open_after false (closelog ∷ xs) = none
open_after b (written t l text ∷ xs) = open_after b xs

-- Whether the calls leave the log open: setting the type to the log of the system opens it, setting it to
-- the console and `out_done` close it.
abbrev pub left_open : Bool → List Call → Bool
left_open b [] = b
left_open b (done ∷ cs) = left_open false cs
left_open b (settype syslog ∷ cs) = left_open true cs
left_open b (settype console ∷ cs) = left_open false cs
left_open b (err_call text ∷ cs) = left_open b cs
left_open b (msg_call text ∷ cs) = left_open b cs
left_open b (syserr_call text errval ∷ cs) = left_open b cs

lines-append : (xs ys : List Effect) → lines (xs ++ ys) ≡ lines xs ++ lines ys
lines-append [] ys = refl
lines-append (openlog ∷ xs) ys = lines-append xs ys
lines-append (closelog ∷ xs) ys = lines-append xs ys
lines-append (written t l text ∷ xs) ys = ap (λ x. (t, l, text) ∷ x) (lines-append xs ys)

open_after-append :
    (b c : Bool) (xs ys : List Effect)
    → open_after b xs ≡ some c
    → open_after b (xs ++ ys) ≡ open_after c ys
open_after-append true c [] ys h = cc
open_after-append false c [] ys h = cc
open_after-append true c (openlog ∷ xs) ys h = cc
open_after-append false c (openlog ∷ xs) ys h = open_after-append true c xs ys h
open_after-append true c (closelog ∷ xs) ys h = open_after-append false c xs ys h
open_after-append false c (closelog ∷ xs) ys h = cc
open_after-append true c (written t l text ∷ xs) ys h = open_after-append true c xs ys h
open_after-append false c (written t l text ∷ xs) ys h = open_after-append false c xs ys h

-- What a run leaves.
pub record Channelled (o o' : Output) (cs : List Call) : Type 0 where
  pub lines_meant : lines o'.effects ≡ lines o.effects ++ meant o.otype cs
  pub log : open_after false o'.effects ≡ some o'.syslog_init
  pub init : o'.syslog_init ≡ left_open o.syslog_init cs

-- One more line.
lines-written :
    (xs : List Effect) (t : Outtype) (l : Level) (text : Bytes) (m : List (Outtype × Level × Bytes))
    → lines (xs ++ written t l text ∷ []) ++ m ≡ lines xs ++ (t, l, text) ∷ m
lines-written xs t l text m =
    ap (λ x. x ++ m) (lines-append xs (written t l text ∷ []))
    ∙ append_assoc (lines xs) ((t, l, text) ∷ []) m

open_after-written :
    (b : Bool) (xs : List Effect) (t : Outtype) (l : Level) (text : Bytes)
    → open_after false xs ≡ some b
    → open_after false (xs ++ written t l text ∷ []) ≡ some b
open_after-written true xs t l text h = open_after-append false true xs (written t l text ∷ []) h
open_after-written false xs t l text h = open_after-append false false xs (written t l text ∷ []) h

-- One more opening or closing.
lines-openlog : (xs : List Effect) → lines (xs ++ openlog ∷ []) ≡ lines xs
lines-openlog xs = lines-append xs (openlog ∷ []) ∙ append-nil (lines xs)

lines-closelog : (xs : List Effect) → lines (xs ++ closelog ∷ []) ≡ lines xs
lines-closelog xs = lines-append xs (closelog ∷ []) ∙ append-nil (lines xs)

-- What the log is left as by a call that writes no line.
record Quiet (o o' : Output) (t : Outtype) : Type 0 where
  same_lines : lines o'.effects ≡ lines o.effects
  log : open_after false o'.effects ≡ some o'.syslog_init
  otype : o'.otype ≡ t

out_done-closed : (o : Output) → (out_done o).syslog_init ≡ false
unfolding out_done
out_done-closed o = elim (Bool-cases o.syslog_init) [ inl b ↦ rw b refl | inr b ↦ rw b refl ]

out_settype-opened : (o : Output) → (out_settype o syslog).syslog_init ≡ true
unfolding out_settype
out_settype-opened o = elim (Bool-cases o.syslog_init) [ inl b ↦ rw b refl | inr b ↦ rw b refl ]

out_settype-closed : (o : Output) → (out_settype o console).syslog_init ≡ false
unfolding out_settype
out_settype-closed o = elim (Bool-cases o.syslog_init) [ inl b ↦ rw b refl | inr b ↦ rw b refl ]

out_done-Quiet :
    (o : Output) → open_after false o.effects ≡ some o.syslog_init → Quiet o (out_done o) o.otype
unfolding out_done
out_done-Quiet o h = elim (Bool-cases o.syslog_init) [
  | inr b ↦ record { same_lines = rw b refl; log = rw b (h ∙ ap some b); otype = rw b refl }
  | inl b ↦ record {
    same_lines = rw b (lines-closelog o.effects);
    log = rw b (open_after-append false true o.effects (closelog ∷ []) (h ∙ ap some b));
    otype = rw b refl;
  }
]

out_settype-Quiet :
    (o : Output) (t : Outtype)
    → open_after false o.effects ≡ some o.syslog_init
    → Quiet o (out_settype o t) t
unfolding out_settype out_done
out_settype-Quiet o console h =
    let k = out_done-Quiet o h in record { same_lines = k.same_lines; log = k.log; otype = refl }
out_settype-Quiet o syslog h = elim (Bool-cases o.syslog_init) [
  | inl b ↦ record { same_lines = rw b refl; log = rw b (h ∙ ap some b); otype = refl }
  | inr b ↦ record {
    same_lines = rw b (lines-openlog o.effects);
    log = rw b (open_after-append false false o.effects (openlog ∷ []) (h ∙ ap some b));
    otype = refl;
  }
]

run-Channelled :
    (o : Output) (cs : List Call)
    → open_after false o.effects ≡ some o.syslog_init
    → Channelled o (run o cs) cs
unfolding out_err out_msg out_syserr
run-Channelled o [] h = record {
  lines_meant = sym (append-nil (lines o.effects));
  log = h;
  init = refl;
}
run-Channelled o (done ∷ cs) h =
    let q = out_done-Quiet o h in
    let k = run-Channelled (out_done o) cs q.log in
    record {
      lines_meant = k.lines_meant ∙ rw (q.same_lines, q.otype) refl;
      log = k.log;
      init = k.init ∙ ap (λ b. left_open b cs) (out_done-closed o);
    }
run-Channelled o (settype syslog ∷ cs) h =
    let q = out_settype-Quiet o syslog h in
    let k = run-Channelled (out_settype o syslog) cs q.log in
    record {
      lines_meant = k.lines_meant ∙ rw (q.same_lines, q.otype) refl;
      log = k.log;
      init = k.init ∙ ap (λ b. left_open b cs) (out_settype-opened o);
    }
run-Channelled o (settype console ∷ cs) h =
    let q = out_settype-Quiet o console h in
    let k = run-Channelled (out_settype o console) cs q.log in
    record {
      lines_meant = k.lines_meant ∙ rw (q.same_lines, q.otype) refl;
      log = k.log;
      init = k.init ∙ ap (λ b. left_open b cs) (out_settype-closed o);
    }
run-Channelled o (err_call text ∷ cs) h =
    let k =
      run-Channelled (out_err o text) cs
        (open_after-written o.syslog_init o.effects o.otype error (cut_text text) h) in
    record {
      lines_meant =
          k.lines_meant ∙ lines-written o.effects o.otype error (cut_text text) (meant o.otype cs);
      log = k.log;
      init = k.init;
    }
run-Channelled o (msg_call text ∷ cs) h =
    let k =
      run-Channelled (out_msg o text) cs
        (open_after-written o.syslog_init o.effects o.otype info (cut_text text) h) in
    record {
      lines_meant =
          k.lines_meant ∙ lines-written o.effects o.otype info (cut_text text) (meant o.otype cs);
      log = k.log;
      init = k.init;
    }
run-Channelled o (syserr_call text errval ∷ cs) h =
    let full = cut_text (cut_text text ++ errval) in
    let k =
      run-Channelled (out_syserr o text errval) cs
        (open_after-written o.syslog_init o.effects o.otype error full h) in
    record {
      lines_meant = k.lines_meant ∙ lines-written o.effects o.otype error full (meant o.otype cs);
      log = k.log;
      init = k.init;
    }

-- From the start of the program on, whatever is called in whatever order, the lines that are written are those of
-- the calls, each on the channel that was set last (the console before any) and cut to 1023 bytes, also behind
-- the description of a system error. The log is never opened twice nor closed while it is not open. Behind the
-- calls it is open, and SYSLOG_INIT says so, exactly if the type was set to the log of the system and since then
-- neither set to the console nor followed by `out_done`.
pub run-channels :
    (cs : List Call)
    → (lines (run initial cs).effects ≡ meant console cs)
      × (open_after false (run initial cs).effects ≡ some (left_open false cs))
      × ((run initial cs).syslog_init ≡ left_open false cs)
run-channels cs =
    let k = run-Channelled initial cs refl in (k.lines_meant, k.log ∙ ap some k.init, k.init)
