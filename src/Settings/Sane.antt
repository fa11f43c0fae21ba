-- ===== src/Settings/Sane.antt =====
-- The numbers of src/cfg.c after an option is set, and how reading a configuration can end.
use agentsmith.Base.{
  ℕ, ◌<◌, ◌≤◌, ◌^◌, true, ◌==◌, leb, ◌≡◌, ◌≢◌, refl, ◌⊎◌, inl, inr, if◌then◌else◌, Bool-cases,
  arith, eq_of_test, ne_of_test,
}
use agentsmith.Base.Words.{signed_le32, signed_le64}
use agentsmith.Config.{Config}
use agentsmith.Settings.{at_least_one32, at_least_one64, config_sanitize}

-- The ranges of the numbers.
pub record IsSane (c : Config) : Type 0 where
  pub action_threshold : signed_le32 1 c.action_threshold ≡ true
  pub time_interval : signed_le64 1 c.time_interval ≡ true
  pub purge_after : signed_le64 1 c.purge_after ≡ true
  pub server : (c.server ≡ 0) ⊎ (c.server ≡ 1)
  pub server_timeout : signed_le32 1 c.server_timeout ≡ true
  pub server_backlog : signed_le32 1 c.server_backlog ≡ true
  pub maxinconnections :
      (signed_le32 1 c.maxinconnections ≡ true) × (signed_le32 c.maxinconnections 256 ≡ true)
  pub inform : (c.inform ≡ 0) ⊎ (c.inform ≡ 1)
  pub inform_retry_wait : signed_le32 1 c.inform_retry_wait ≡ true

at_least_one32_lem : (d x : ℕ) → signed_le32 1 d ≡ true → signed_le32 1 (at_least_one32 d x) ≡ true
at_least_one32_lem d x h = elim (Bool-cases (signed_le32 1 x)) [ inl e ↦ rw e e | inr e ↦ rw e h ]

at_least_one64_lem : (d x : ℕ) → signed_le64 1 d ≡ true → signed_le64 1 (at_least_one64 d x) ≡ true
at_least_one64_lem d x h = elim (Bool-cases (signed_le64 1 x)) [ inl e ↦ rw e e | inr e ↦ rw e h ]

at_most_256 :
    (x : ℕ) → signed_le32 (at_least_one32 5 (if signed_le32 x 256 then x else 256)) 256 ≡ true
at_most_256 x = elim (Bool-cases (signed_le32 x 256)) [
  | inr e ↦ rw e refl
  | inl e ↦ rw e (elim (Bool-cases (signed_le32 1 x)) [ inl k ↦ rw k e | inr k ↦ rw k refl ])
]

abbrev flag : ℕ → ℕ
flag x = if x == 0 then 0 else 1

flag_lem : (x : ℕ) → (flag x ≡ 0) ⊎ (flag x ≡ 1)
flag_lem x = elim (Bool-cases (x == 0)) [ inl e ↦ inl (rw e refl) | inr e ↦ inr (rw e refl) ]

pub config_sanitize-IsSane : (c : Config) → IsSane (config_sanitize c)
unfolding config_sanitize
config_sanitize-IsSane c = record {
  action_threshold = at_least_one32_lem 3 c.action_threshold refl;
  time_interval = at_least_one64_lem 60 c.time_interval refl;
  purge_after = at_least_one64_lem 3600 c.purge_after refl;
  server = flag_lem c.server;
  server_timeout = at_least_one32_lem 5 c.server_timeout refl;
  server_backlog = at_least_one32_lem 64 c.server_backlog refl;
  maxinconnections = (
    at_least_one32_lem 5 (if signed_le32 c.maxinconnections 256 then c.maxinconnections else 256)
        refl,
    at_most_256 c.maxinconnections,
  );
  inform = flag_lem c.inform;
  inform_retry_wait = at_least_one32_lem 3 c.inform_retry_wait refl;
}

flag_same : (x : ℕ) → (x ≡ 0) ⊎ (x ≡ 1) → flag x ≡ x
flag_same x (inl h) = rw h refl
flag_same x (inr h) = rw h refl

-- Numbers in their ranges are left alone.
config_sanitize_same : (c : Config) → IsSane c → config_sanitize c ≡ c
unfolding config_sanitize
config_sanitize_same c w = λ i. record {
  action_threshold = same32 3 w.action_threshold i;
  time_interval = same64 60 w.time_interval i;
  purge_after = same64 3600 w.purge_after i;
  server = flag_same c.server w.server i;
  server_timeout = same32 5 w.server_timeout i;
  server_backlog = same32 64 w.server_backlog i;
  maxinconnections = connections w.maxinconnections i;
  inform = flag_same c.inform w.inform i;
  inform_retry_wait = same32 3 w.inform_retry_wait i;
  inform_retry = c.inform_retry;
  remote_authoritative = c.remote_authoritative;
}
  where
    same32 : (d : ℕ) {x : ℕ} → signed_le32 1 x ≡ true → at_least_one32 d x ≡ x
    same32 d h = rw h refl

    same64 : (d : ℕ) {x : ℕ} → signed_le64 1 x ≡ true → at_least_one64 d x ≡ x
    same64 d h = rw h refl

    connections :
        {x : ℕ}
        → (signed_le32 1 x ≡ true) × (signed_le32 x 256 ≡ true)
        → at_least_one32 5 (if signed_le32 x 256 then x else 256) ≡ x
    connections (h, k) = rw (k, h) refl

-- The numbers are patterns of their widths.
pub record IsPattern (c : Config) : Type 0 where
  pub action_threshold : c.action_threshold < 2 ^ 32
  pub time_interval : c.time_interval < 2 ^ 64
  pub purge_after : c.purge_after < 2 ^ 64
  pub server_timeout : c.server_timeout < 2 ^ 32
  pub server_backlog : c.server_backlog < 2 ^ 32
  pub maxinconnections : c.maxinconnections < 2 ^ 32
  pub inform_retry_wait : c.inform_retry_wait < 2 ^ 32

-- A positive number of a signed type with maximum m - 1 is kept, and zero or a negative one becomes d.
abbrev pub KeptOr : (m d x y : ℕ) → Type 0
KeptOr m d x y = ((0 < x) × (x < m) × (y ≡ x)) ⊎ (((x ≡ 0) ⊎ (m ≤ x)) × (y ≡ d))

-- Zero is kept, and everything else becomes 1.
abbrev pub Flagged : (x y : ℕ) → Type 0
Flagged x y = ((x ≡ 0) × (y ≡ 0)) ⊎ ((x ≢ 0) × (y ≡ 1))

-- What `_config_sanitize` makes of a configuration.
pub record Sanitized (c d : Config) : Type 0 where
  pub action_threshold : KeptOr (2 ^ 31) 3 c.action_threshold d.action_threshold
  pub time_interval : KeptOr (2 ^ 63) 60 c.time_interval d.time_interval
  pub purge_after : KeptOr (2 ^ 63) 3600 c.purge_after d.purge_after
  pub server : Flagged c.server d.server
  pub server_timeout : KeptOr (2 ^ 31) 5 c.server_timeout d.server_timeout
  pub server_backlog : KeptOr (2 ^ 31) 64 c.server_backlog d.server_backlog
  pub maxinconnections :
      ((256 < c.maxinconnections) × (c.maxinconnections < 2 ^ 31) × (d.maxinconnections ≡ 256))
      ⊎ ((c.maxinconnections ≤ 256) × KeptOr (2 ^ 31) 5 c.maxinconnections d.maxinconnections)
      ⊎ ((2 ^ 31 ≤ c.maxinconnections) × (d.maxinconnections ≡ 5))
  pub inform : Flagged c.inform d.inform
  pub inform_retry_wait : KeptOr (2 ^ 31) 3 c.inform_retry_wait d.inform_retry_wait
  pub inform_retry : d.inform_retry ≡ c.inform_retry
  pub remote_authoritative : d.remote_authoritative ≡ c.remote_authoritative

kept_or32 : (d x : ℕ) → x < 2 ^ 32 → KeptOr (2 ^ 31) d x (at_least_one32 d x)
kept_or32 d x h = elim (Bool-cases (signed_le32 1 x)) [
  | inl e ↦ inl (ground arith, ground arith, rw e refl)
  | inr e ↦ elim (Bool-cases (x == 0)) [
    | inl z ↦ inr (inl (eq_of_test x 0 z), rw e refl)
    | inr z ↦ inr (inr (ground arith), rw e refl)
  ]
]

kept_or64 : (d x : ℕ) → x < 2 ^ 64 → KeptOr (2 ^ 63) d x (at_least_one64 d x)
kept_or64 d x h = elim (Bool-cases (signed_le64 1 x)) [
  | inl e ↦ inl (ground arith, ground arith, rw e refl)
  | inr e ↦ elim (Bool-cases (x == 0)) [
    | inl z ↦ inr (inl (eq_of_test x 0 z), rw e refl)
    | inr z ↦ inr (inr (ground arith), rw e refl)
  ]
]

flagged : (x : ℕ) → Flagged x (flag x)
flagged x = elim (Bool-cases (x == 0)) [
  | inl e ↦ inl (eq_of_test x 0 e, rw e refl)
  | inr e ↦ inr (ne_of_test x 0 e, rw e refl)
]

connections_lem :
    (x : ℕ)
    → x < 2 ^ 32
    → let y = at_least_one32 5 (if signed_le32 x 256 then x else 256) in
      ((256 < x) × (x < 2 ^ 31) × (y ≡ 256))
      ⊎ ((x ≤ 256) × KeptOr (2 ^ 31) 5 x y)
      ⊎ ((2 ^ 31 ≤ x) × (y ≡ 5))
connections_lem x h = elim (Bool-cases (signed_le32 x 256)) [
  | inr e ↦ inl (ground arith, ground arith, rw e refl)
  | inl e ↦ elim (Bool-cases (leb x 256)) [
    | inl k ↦ rw e (inr (inl (ground arith, kept_or32 5 x h)))
    | inr k ↦ rw e (inr (inr (ground arith, ground arith)))
  ]
]

-- On patterns of their widths, `_config_sanitize` keeps every number that is positive in its signed type and
-- replaces zero and negative ones by the default of the option. It cuts the connections of the server to
-- 256, makes the two switches 0 or 1, and keeps the two other options. The result is in its ranges, and
-- doing it again changes nothing.
pub config_sanitize_ranges :
    (c : Config)
    → IsPattern c
    → Sanitized c (config_sanitize c)
      × IsSane (config_sanitize c)
      × (config_sanitize (config_sanitize c) ≡ config_sanitize c)
unfolding config_sanitize
config_sanitize_ranges c p = (
  record {
    action_threshold = kept_or32 3 c.action_threshold p.action_threshold;
    time_interval = kept_or64 60 c.time_interval p.time_interval;
    purge_after = kept_or64 3600 c.purge_after p.purge_after;
    server = flagged c.server;
    server_timeout = kept_or32 5 c.server_timeout p.server_timeout;
    server_backlog = kept_or32 64 c.server_backlog p.server_backlog;
    maxinconnections = connections_lem c.maxinconnections p.maxinconnections;
    inform = flagged c.inform;
    inform_retry_wait = kept_or32 3 c.inform_retry_wait p.inform_retry_wait;
    inform_retry = refl;
    remote_authoritative = refl;
  },
  config_sanitize-IsSane c,
  config_sanitize_same (config_sanitize c) (config_sanitize-IsSane c),
)
