-- ===== src/Program/Samples.antt =====
-- Values that the runs of src/main.c start from.
use agentsmith.Base.{true, false, some, [], ◌∷◌, replicate}
use agentsmith.Samples.{numbers, serving, known}
use agentsmith.Settings.{Settings}
use agentsmith.Signals.Setup.{SetupEnv}
use agentsmith.Tls.{Openssl}
use agentsmith.Program.{BootEnv}

abbrev pub handled : SetupEnv
handled = record {
  has_siginfo = false;
  has_sigpoll = true;
  has_sigemt = false;
  sigprocmask = true;
  sigaction = λ n. true;
}

-- OpenSSL grants everything.
abbrev pub library : Openssl
library = record {
  old = false;
  num_locks = 0;
  lock_cs = true;
  lock_count = true;
  mutex = λ i. 0;
  client_ctx = true;
  server_ctx = true;
  load_verify_locations = λ file. true;
  use_certificate_file = λ file. true;
  use_private_key_file = λ file. true;
  bio_new = true;
  bio_read_filename = λ file. true;
  pem_read_crl = λ file. true;
  store_add_crl = true;
  verify_param_new = true;
  set1_param = true;
}

abbrev pub boot : BootEnv
boot = record {
  records_calloc = true;
  records_mutex = 0;
  exclude_calloc = true;
  exclude_mutex = 0;
  openssl = library;
  signals = handled;
  reader = record {
    attr = 0;
    detach = 0;
    create = 0;
    run = some (record { call = serving; calloc = true; inet = known; file = some (b'#' ∷ []) });
  };
  action_thread = 0;
  maintenance_thread = 0;
  server_thread = 0;
  memory = true;
  mutex = 0;
  cond = 0;
  create = 0;
}

abbrev pub settings : Settings
settings = record {
  pidfile = [];
  syslogfile = [];
  action = [];
  exclude = b'x' ∷ [];
  ssl_ca_file = b'a' ∷ [];
  ssl_crl_file = b'r' ∷ [];
  ssl_server_key = b'k' ∷ [];
  ssl_server_cert = b's' ∷ [];
  ssl_client_key = b'k' ∷ [];
  ssl_client_cert = b'c' ∷ [];
  regex = [];
  numbers = numbers;
  listen = [];
  inform_agents = (record { supported = true; sockaddr = replicate 16 2 } ∷ []) ∷ [];
}
