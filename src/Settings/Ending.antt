-- ===== src/Settings/Ending.antt =====
-- How reading a configuration of src/cfg.c can end: with numbers in their ranges, by `exit(1)`, or by a failed
-- assertion.
use agentsmith.Base.{
  ℕ, suc, ◌<◌, Bool, true, List, [], ◌∷◌, some, ◌≡◌, refl, ◌⊎◌, inl, inr, arith, Bool-cases,
  Option-cases, length,
}
use agentsmith.Base.Outcome.{Retval, ok}
use agentsmith.Base.Words.{signed_le32}
use agentsmith.Base.Cstring.{Bytes}
use agentsmith.Config.{Config}
use agentsmith.Settings.{Settings, Defaults, init_config}
use agentsmith.Settings.Addresses.{Names, default_listen, is_none_yet}
use agentsmith.Settings.Options.{CfgEntry, cfgcfg, set_config_option, path_ok, check_paths}
use agentsmith.Settings.File.{option_of, do_option, default_if_none, config_read}
use agentsmith.Settings.Sane.{IsSane}
use agentsmith.Settings.Once.{set_each, config_lines_enough}
use agentsmith.Settings.Setting.{
  Ends, Anything, bind-Ends, SameNumbers, listen-Ends, HasSane, set_config_option-Ends,
}

-- The ranges, but that of `server_backlog`, which may also be what it was.
pub record IsNearlySane (old : ℕ) (c : Config) : Type 0 where
  pub others : IsSane (record c { server_backlog = 1 })
  pub backlog : (signed_le32 1 c.server_backlog ≡ true) ⊎ (c.server_backlog ≡ old)

IsSane-IsNearlySane : (old : ℕ) (c : Config) → IsSane c → IsNearlySane old c
IsSane-IsNearlySane old c w = record {
  others = record {
    action_threshold = w.action_threshold;
    time_interval = w.time_interval;
    purge_after = w.purge_after;
    server = w.server;
    server_timeout = w.server_timeout;
    server_backlog = refl;
    maxinconnections = w.maxinconnections;
    inform = w.inform;
    inform_retry_wait = w.inform_retry_wait;
  };
  backlog = inl w.server_backlog;
}

init_config-IsNearlySane :
    (d : Defaults) (s : Settings) → IsNearlySane s.numbers.server_backlog (init_config d s).numbers
unfolding init_config
init_config-IsNearlySane d s = record {
  others = record {
    action_threshold = refl;
    time_interval = refl;
    purge_after = refl;
    server = inl refl;
    server_timeout = refl;
    server_backlog = refl;
    maxinconnections = (refl, refl);
    inform = inl refl;
    inform_retry_wait = refl;
  };
  backlog = inr refl;
}

set_each-Ends :
    (n : Names) (old : ℕ) (lines : List Bytes) (s : Settings)
    → IsNearlySane old s.numbers
    → Ends (λ t. IsNearlySane old t.numbers) (set_each n s lines)
unfolding do_option
set_each-Ends n old [] s w = w
set_each-Ends n old (line ∷ lines) s w = elim (Option-cases (option_of line)) [
  | inl h ↦ rw (h, Ends) (set_each-Ends n old lines s w)
  | inr ((token, value), h) ↦
      rw (h, Ends)
        (bind-Ends HasSane (λ t. IsNearlySane old t.numbers) (set_config_option n token value s) _
          (set_config_option-Ends n token value s)
          (λ s' k. set_each-Ends n old lines s' (IsSane-IsNearlySane old s'.numbers k)))
]

check_paths-Ends :
    (access : Bytes → ℕ → Bool) (es : List CfgEntry) (s : Settings)
    → Ends Anything (check_paths access es s)
unfolding check_paths
check_paths-Ends access [] s = tt
check_paths-Ends access (e ∷ es) s = elim (Bool-cases (path_ok access e.value s)) [
  | inl h ↦ rw (h, Ends) (check_paths-Ends access es s)
  | inr h ↦ rw (h, Ends) refl
]

default_if_none-Ends : (n : Names) (s : Settings) → Ends (SameNumbers s) (default_if_none n s)
unfolding default_if_none
default_if_none-Ends n s = elim (Bool-cases (is_none_yet s.listen)) [
  | inl h ↦ rw (h, Ends) (listen-Ends n default_listen s)
  | inr h ↦ rw (h, Ends) refl
]

-- On a file that is not empty, `config_read` has no undefined behaviour, whatever is in the file and whatever
-- the system answers: it returns RETVAL_OK, exits with code 1, or fails an assertion. If it returns,
-- every number is in its range, but that `server_backlog` may still have the value from before the call.
pub config_read-Ends :
    (d : Defaults) (n : Names) (access : Bytes → ℕ → Bool) (granted : Bool) (file : Bytes)
    (s : Settings)
    → 0 < length file
    → Ends
        (λ (t, r). (r ≡ ok) × IsNearlySane s.numbers.server_backlog t.numbers)
        (config_read d n access granted (some file) s)
unfolding config_read
config_read-Ends d n access granted file s h = elim (Bool-cases granted) [
  | inr g ↦ rw (g, Ends) refl
  | inl g ↦
      let (lines, joins, are, sets) =
        config_lines_enough (suc (suc (length file))) file h (omega arith) in
      let old = s.numbers.server_backlog in
      let Good = λ (t : Settings). IsNearlySane old t.numbers in
      let Result = λ (r : Settings × Retval). (r.1 ≡ ok) × IsNearlySane old r.0.numbers in
      rw (g, sets n (init_config d s), Ends)
        (bind-Ends Good Result (set_each n (init_config d s) lines) _
          (set_each-Ends n old lines (init_config d s) (init_config-IsNearlySane d s))
          (λ t w.
            bind-Ends Anything Result (check_paths access cfgcfg t) _
              (check_paths-Ends access cfgcfg t)
              (λ u v.
                bind-Ends (SameNumbers t) Result (default_if_none n t) _ (default_if_none-Ends n t)
                  (λ t' same. (refl, rw same w)))))
]
