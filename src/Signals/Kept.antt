-- ===== src/Signals/Kept.antt =====
-- Whatever the system answers, the handlers of src/sighandler.c that return leave a valid vector and an exclude list
-- in order.
use agentsmith.Base.{ℕ, Bool, ◌≡◌, refl, inl, inr, Bool-cases}
use agentsmith.Base.Outcome.{Outcome, Env, IfReturns, bind-IfReturns, assert-IfReturns}
use agentsmith.Records.{HostRecord, Vector}
use agentsmith.Records.Lookup.{key, IsValid}
use agentsmith.Records.Maintenance.{records_enumerate}
use agentsmith.Records.Kept.{records_enumerate-Kept}
use agentsmith.Exclude.File.{exclude_readfile}
use agentsmith.Exclude.Kept.{exclude_readfile-LaidOut}
use agentsmith.Slots.Layout.{IsLaidOut}
use agentsmith.Signals.{
  Signal, hup, usr1, usr2, termination, fatal, unhandled, Process, SignalEnv,
  records_callback_output, records_callback_remove_all, enumerate_async, handle,
}

enumerate_async-IsValid :
    {S : Type 0} (cb : S → HostRecord → Outcome (S × HostRecord × ℕ))
    (keeps : (s : S) (r : HostRecord)
      → IfReturns (λ (s', r', stop). Unit × (key r' ≡ key r)) (cb s r))
    (thread : Bool) (e : Env) (s : S) (v : Vector)
    → IsValid v
    → IfReturns (λ (s', u, r). IsValid u) (enumerate_async cb thread e s v)
unfolding enumerate_async
enumerate_async-IsValid cb keeps thread e s v w =
    assert-IfReturns _ v.initialized _ (elim (Bool-cases thread) [
      | inr h ↦ rw (h, IfReturns) w
      | inl h ↦
          rw (h, IfReturns)
            (bind-IfReturns (λ (s', u, r). Unit × IsValid u) _ (records_enumerate cb e s v) _
              (records_enumerate-Kept (λ s. Unit) cb (λ s r k. keeps s r) e s v tt w)
              (λ (s', u, r) (_, w'). w'))
    ])

-- The vector and the exclude list.
pub record IsSound (p : Process) : Type 0 where
  pub valid : IsValid p.vector
  pub laid_out : IsLaidOut p.rules

pub handle-IsSound :
    (e : SignalEnv) (p : Process) (s : Signal) → IsSound p → IfReturns IsSound (handle e p s)
unfolding handle records_callback_output records_callback_remove_all
handle-IsSound e p hup w = elim (Bool-cases e.thread) [
  | inr h ↦ rw (h, IfReturns) w
  | inl h ↦
      rw (h, IfReturns)
        (bind-IfReturns IsLaidOut IsSound
          (exclude_readfile e.call e.calloc e.inet p.rules e.exclude e.file) _
          (exclude_readfile-LaidOut e.call e.calloc e.inet p.rules e.exclude e.file w.laid_out)
          (λ rules k. record { valid = w.valid; laid_out = k }))
]
handle-IsSound e p usr1 w =
    bind-IfReturns (λ (s', u, r). IsValid u) IsSound
      (enumerate_async records_callback_output e.thread e.call p.printed p.vector) _
      (enumerate_async-IsValid records_callback_output (λ s r. (tt, refl)) e.thread e.call p.printed
        p.vector w.valid)
      (λ (s', u, r) k. record { valid = k; laid_out = w.laid_out })
handle-IsSound e p usr2 w =
    bind-IfReturns (λ (s', u, r). IsValid u) IsSound
      (enumerate_async records_callback_remove_all e.thread e.call tt p.vector) _
      (enumerate_async-IsValid records_callback_remove_all (λ s r. (tt, refl)) e.thread e.call tt
        p.vector w.valid)
      (λ (s', u, r) k. record { valid = k; laid_out = w.laid_out })
handle-IsSound e p termination w = record { valid = w.valid; laid_out = w.laid_out }
handle-IsSound e p fatal w = tt
handle-IsSound e p unhandled w = w
