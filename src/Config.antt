-- ===== src/Config.antt =====
-- The configuration that src/cfg.c keeps in the global CONFIG: its numeric options.
use agentsmith.Base.{ℕ}

-- The integer members of `struct _config`, as bit patterns of int32_t and int64_t.
pub record Config : Type 0 where
  pub action_threshold : ℕ
  pub time_interval : ℕ
  pub purge_after : ℕ
  pub server : ℕ
  pub server_timeout : ℕ
  pub server_backlog : ℕ
  pub maxinconnections : ℕ
  pub inform : ℕ
  pub inform_retry : ℕ
  pub inform_retry_wait : ℕ
  pub remote_authoritative : ℕ
