-- ===== src/Signals/Purge.antt =====
-- SIGUSR2 in src/sighandler.c and the next run of `records_maintenance`: every record is gone.
use agentsmith.Base.{true, Option, none, some, ◌≡◌, refl, ◌∙◌, ap}
use agentsmith.Base.Outcome.{Outcome, ret, ok, Env, assert_holds}
use agentsmith.Base.Cstring.{Bytes}
use agentsmith.Records.{HostRecord, Vector}
use agentsmith.Records.Lookup.{view, IsValid}
use agentsmith.Records.Add.{IsServing}
use agentsmith.Records.Maintenance.{notify, records_maintenance}
use agentsmith.Records.Marking.{
  rewrite, rewritten, visited, rewritten-IsValid, view-rewritten, records_enumerate-rewritten,
}
use agentsmith.Records.Sweeping.{kept, reports}
use agentsmith.Records.Shrinking.{records_maintenance_served}
use agentsmith.Signals.{
  Process, SignalEnv, usr2, records_callback_remove_all, enumerate_async, handle,
}

abbrev flagged : HostRecord → HostRecord
flagged r = record r { remove = 1 }

abbrev marked : Process → Process
marked p = record p { vector = record p.vector { slots = rewritten flagged p.vector.slots } }

kept-flagged : (x : Option HostRecord) → kept (rewrite flagged x) ≡ none
kept-flagged none = refl
kept-flagged (some r) = refl

callback_total :
    (u : Unit {0}) (r : HostRecord) → records_callback_remove_all u r ≡ ret (tt, flagged r, 0)
unfolding records_callback_remove_all
callback_total u r = refl

enumerate_async-rewritten :
    (call : Env) (v : Vector)
    → IsServing call
    → IsValid v
    → enumerate_async records_callback_remove_all true call tt v
      ≡ ret (visited (λ _ _. tt) tt v.slots, record v { slots = rewritten flagged v.slots }, ok)
unfolding enumerate_async
enumerate_async-rewritten call v g w =
    assert_holds v.initialized _ w.laid_out.started
    ∙ rw
        (records_enumerate-rewritten records_callback_remove_all (λ _ _. tt) flagged callback_total
          call tt v g w.laid_out)
        refl

handle-usr2 :
    (e : SignalEnv) (p : Process)
    → e.thread ≡ true
    → IsServing e.call
    → IsValid p.vector
    → handle e p usr2 ≡ ret (marked p)
unfolding handle
handle-usr2 e p t g w = rw t (rw (enumerate_async-rewritten e.call p.vector g w) refl)

-- What SIGUSR2 and a run of the maintenance on what it leaves do.
pub record Purged {S : Type 0} (cb : Option (S → HostRecord → Outcome S)) (f : S → HostRecord → S)
    (e : SignalEnv) (m : Env) (s : S) (p : Process) : Type 0 where
  pub after : Process
  pub cleaned : Vector
  pub handles : handle e p usr2 ≡ ret after
  pub same_rules : after.rules ≡ p.rules
  pub flags : (j : Bytes) → view after.vector j ≡ rewrite flagged (view p.vector j)
  pub maintains :
      records_maintenance cb m s after.vector ≡ ret (reports f s after.vector.slots, cleaned, ok)
  pub valid : IsValid cleaned
  pub empty : (j : Bytes) → view cleaned j ≡ none

-- When the system grants everything and the maintenance callback returns, SIGUSR2 on a valid vector
-- flags every record and changes nothing else of it, and the next run of `records_maintenance` succeeds
-- and leaves a valid vector in which no address has a record.
pub usr2-Purged :
    {S : Type 0} (cb : Option (S → HostRecord → Outcome S)) (f : S → HostRecord → S)
    (total : (s : S) (r : HostRecord) → notify cb s r ≡ ret (f s r)) (e : SignalEnv) (m : Env)
    (s : S) (p : Process)
    → e.thread ≡ true
    → IsServing e.call
    → IsServing m
    → IsValid p.vector
    → Purged cb f e m s p
usr2-Purged cb f total e m s p t g k w =
    let w' = rewritten-IsValid flagged (λ r. refl) p.vector w in
    let (u, h, d) = records_maintenance_served cb f total m s (marked p).vector w' k in
    record {
      after = marked p;
      cleaned = u;
      handles = handle-usr2 e p t g w;
      same_rules = refl;
      flags = λ j. view-rewritten flagged (λ r. refl) p.vector j;
      maintains = h;
      valid = d.valid;
      empty = λ j.
          d.views j
          ∙ ap kept (view-rewritten flagged (λ r. refl) p.vector j)
          ∙ kept-flagged (view p.vector j);
    }
