-- ===== src/Settings.antt =====
-- src/cfg.c: the configuration with its defaults, and the ranges that every option is brought into.
pub mod Addresses
pub mod Options
pub mod File
pub mod Sane
pub mod Once
pub mod Setting
pub mod Ending
mod Tests
use agentsmith.Base.{ℕ, ◌-◌, ◌+◌, ◌^◌, Bool, true, false, List, [], ◌∷◌, ◌==◌, if◌then◌else◌}
use agentsmith.Base.Words.{signed_le32, signed_le64}
use agentsmith.Base.Cstring.{Bytes, strncpy}
use agentsmith.Config.{Config}
use agentsmith.Queue.{Agent}
use agentsmith.Watch.{buffsize}

-- _MAX_PATH
abbrev pub max_path : ℕ
max_path = 1024

-- What `getaddrinfo` finds for one name: a chain of addresses.
abbrev pub AddrInfo : Type 0
AddrInfo = List Agent

-- `struct _config`: the arrays, the numbers and the two lists of addresses.
pub record Settings : Type 0 where
  pub pidfile : Bytes
  pub syslogfile : Bytes
  pub action : Bytes
  pub exclude : Bytes
  pub ssl_ca_file : Bytes
  pub ssl_crl_file : Bytes
  pub ssl_server_key : Bytes
  pub ssl_server_cert : Bytes
  pub ssl_client_key : Bytes
  pub ssl_client_cert : Bytes
  pub regex : Bytes
  pub numbers : Config
  pub listen : List AddrInfo
  pub inform_agents : List AddrInfo

-- The texts that the build and the macros of cfg.c give as defaults.
pub record Defaults : Type 0 where
  pub pidfile : Bytes
  pub regex : Bytes
  pub logfile : Bytes
  pub action : Bytes

-- `_init_config`. Two numbers, `server_backlog` and `remote_authoritative`, are left as they are.
unfoldable pub init_config : Defaults → Settings → Settings
unfolding strncpy
init_config d s = record {
  pidfile = strncpy max_path d.pidfile;
  regex = strncpy buffsize d.regex;
  syslogfile = strncpy max_path d.logfile;
  action = strncpy max_path d.action;
  exclude = strncpy max_path [];
  ssl_ca_file = strncpy max_path [];
  ssl_crl_file = strncpy max_path [];
  ssl_server_key = strncpy max_path [];
  ssl_server_cert = strncpy max_path [];
  ssl_client_key = strncpy max_path [];
  ssl_client_cert = strncpy max_path [];
  numbers = record s.numbers {
    action_threshold = 3;
    time_interval = 60;
    purge_after = 3600;
    server = 0;
    server_timeout = 5;
    inform = 0;
    inform_retry = 30;
    inform_retry_wait = 3;
    maxinconnections = 5;
  };
  listen = [];
  inform_agents = [];
}

-- `x < 1 ? default : x`, for the two widths.
abbrev pub at_least_one32 : ℕ → ℕ → ℕ
at_least_one32 default x = if signed_le32 1 x then x else default

abbrev pub at_least_one64 : ℕ → ℕ → ℕ
at_least_one64 default x = if signed_le64 1 x then x else default

-- `_config_sanitize`
unfoldable pub config_sanitize : Config → Config
config_sanitize c = record {
  server_backlog = at_least_one32 64 c.server_backlog;
  maxinconnections =
      at_least_one32 5 (if signed_le32 c.maxinconnections 256 then c.maxinconnections else 256);
  server_timeout = at_least_one32 5 c.server_timeout;
  inform_retry_wait = at_least_one32 3 c.inform_retry_wait;
  inform = if c.inform == 0 then 0 else 1;
  server = if c.server == 0 then 0 else 1;
  action_threshold = at_least_one32 3 c.action_threshold;
  time_interval = at_least_one64 60 c.time_interval;
  purge_after = at_least_one64 3600 c.purge_after;
  inform_retry = c.inform_retry;
  remote_authoritative = c.remote_authoritative;
}
