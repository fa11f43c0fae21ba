-- ===== src/Settings/Tests.antt =====
-- Runs of src/cfg.c on a file of two lines.
use agentsmith.Base.{ℕ, Bool, true, [], ◌∷◌, none, some, ◌≡◌, arith}
use agentsmith.Base.Outcome.{ok}
use agentsmith.Base.Cstring.{Bytes}
use agentsmith.Samples.{numbers}
use agentsmith.Config.{Config}
use agentsmith.Settings.{Settings, Defaults, config_sanitize}
use agentsmith.Settings.Addresses.{Names}
use agentsmith.Settings.File.{config_read}
use agentsmith.Settings.Sane.{IsSane, IsPattern, Sanitized, config_sanitize_ranges}
use agentsmith.Settings.Setting.{Ends}
use agentsmith.Settings.Ending.{IsNearlySane, config_read-Ends}

-- "inform=1", and a comment without a newline.
abbrev file : Bytes
file = b'i' ∷ b'n' ∷ b'f' ∷ b'o' ∷ b'r' ∷ b'm' ∷ b'=' ∷ b'1' ∷ b'\n' ∷ b'#' ∷ b' ' ∷ []

abbrev settings : Settings
settings = record {
  pidfile = [];
  syslogfile = [];
  action = [];
  exclude = [];
  ssl_ca_file = [];
  ssl_crl_file = [];
  ssl_server_key = [];
  ssl_server_cert = [];
  ssl_client_key = [];
  ssl_client_cert = [];
  regex = [];
  numbers = numbers;
  listen = [];
  inform_agents = [];
}

abbrev defaults : Defaults
defaults = record { pidfile = []; regex = []; logfile = []; action = [] }

abbrev no_names : Names
no_names = record { getaddrinfo = λ host port. none; copy = true; item = true }

abbrev grant_all : Bytes → ℕ → Bool
grant_all path mode = true

config_read-Ends_example :
    Ends
      (λ (t, r). (r ≡ ok) × IsNearlySane 5 t.numbers)
      (config_read defaults no_names grant_all true (some file) settings)
config_read-Ends_example =
    config_read-Ends defaults no_names grant_all true file settings (omega arith)

-- Too many connections and no timeout.
abbrev out_of_range : Config
out_of_range = record numbers { maxinconnections = 300; server_timeout = 0 }

out_of_range-IsPattern : IsPattern out_of_range
out_of_range-IsPattern = record {
  action_threshold = omega arith;
  time_interval = omega arith;
  purge_after = omega arith;
  server_timeout = omega arith;
  server_backlog = omega arith;
  maxinconnections = omega arith;
  inform_retry_wait = omega arith;
}

config_sanitize_ranges_example :
    Sanitized out_of_range (config_sanitize out_of_range)
    × IsSane (config_sanitize out_of_range)
    × (config_sanitize (config_sanitize out_of_range) ≡ config_sanitize out_of_range)
config_sanitize_ranges_example = config_sanitize_ranges out_of_range out_of_range-IsPattern
