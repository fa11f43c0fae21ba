-- ===== src/Program/Run/Tests.antt =====
-- A run of src/main.c in the foreground, on a configuration that is a comment and a log that grows by two lines.
use agentsmith.Base.{true, false, [], ◌∷◌, none, some, ◌≡◌, refl, arith, equal}
use agentsmith.Base.Outcome.{ret, locked}
use agentsmith.Base.Cstring.{Bytes, c_str, strncpy}
use agentsmith.Wire.{htonl, of_memory}
use agentsmith.Slots.{unstarted, start, reserve}
use agentsmith.Exclude.Address.{split_at, contains, chomp, parse_prefix, exclude_parse_ip}
use agentsmith.Exclude.Mask.{ipv4_mask, shift_mask}
use agentsmith.Exclude.Rules.{
  to_address, make_rule, insert_rule, add_parsed, exclude_add, exclude_clear,
}
use agentsmith.Exclude.File.{fgets, read_line, read_lines, exclude_readfile}
use agentsmith.Action.{ActionEnv}
use agentsmith.Follow.Growth.{growing}
use agentsmith.Samples.{
  serving, known, address_line, other_line, portions, one_line, every, lines-AllLines,
  lines-AllCountable,
}
use agentsmith.Settings.{Settings, init_config}
use agentsmith.Settings.Addresses.{
  words, split_colon, split_word, resolve, resolve_words, config_callback_listen,
}
use agentsmith.Settings.Options.{cfgcfg, path_ok, check_paths}
use agentsmith.Settings.File.{
  option_in, option_of, do_option, ends_in_newline, hits_eof, config_lines, default_if_none,
  config_read,
}
use agentsmith.Program.{
  foreground, CommandLine, BootEnv, read_arguments, become_daemon, use_pidfile,
  launch_exclude_readfile, read_exclude,
}
use agentsmith.Program.Starting.{IsGranted}
use agentsmith.Program.Samples.{boot, settings}
use agentsmith.Program.Run.{MainEnv, no_options, configure}
use agentsmith.Program.Run.Finishing.{Finished, main-Finished}

abbrev log : Bytes
log = b'a' ∷ b'\n' ∷ []

-- The exclude file has a comment and an address.
abbrev excluding : BootEnv
excluding = record boot {
  reader = record {
    attr = 0;
    detach = 0;
    create = 0;
    run = some (record {
      call = serving;
      calloc = true;
      inet = known;
      file = some (b'#' ∷ b'\n' ∷ address_line);
    });
  };
}

abbrev answers : MainEnv
answers = record {
  fork = none;
  defaults = record { pidfile = []; regex = []; logfile = []; action = [] };
  names = record { getaddrinfo = λ host port. none; copy = true; item = true };
  access = λ path mode. true;
  granted = true;
  config = some (b'#' ∷ b'x' ∷ []);
  fopen = λ name. true;
  boot = excluding;
  opens = true;
  log = some (2, 7);
  seeks = true;
  rounds = growing true log portions;
  inet = known;
  line = every;
  join = λ t. 0;
}

abbrev script : ActionEnv
script = record {
  action = [];
  inform = 0;
  inform_agents = false;
  accessible = true;
  now = 5000;
  queue = λ j. record { lock = 0; entry = λ i. true; copy = λ i. true };
  memory = true;
}

abbrev shown : CommandLine
shown = record no_options { daemonmode = false }

abbrev configured : Settings
configured = init_config answers.defaults settings

answers-configured : configure answers (foreground ∷ []) settings ≡ ret (shown, configured)
unfolding configure read_arguments become_daemon use_pidfile config_read config_lines fgets
    option_of option_in do_option split_at hits_eof ends_in_newline check_paths path_ok cfgcfg
    default_if_none init_config config_callback_listen words resolve_words resolve split_word
    split_colon strncpy c_str equal
answers-configured = refl

shown-IsGranted : IsGranted one_line excluding shown configured
unfolding init_config read_exclude launch_exclude_readfile exclude_readfile exclude_clear read_lines
    read_line fgets locked unstarted start exclude_add add_parsed exclude_parse_ip parse_prefix
    chomp split_at contains reserve insert_rule make_rule ipv4_mask shift_mask to_address htonl
    of_memory
shown-IsGranted = record {
  compiles = (refl, refl, refl, refl);
  stays = refl;
  records = (refl, refl);
  exclude = (refl, refl);
  secure = λ h. cc;
  rules = _;
  reads = refl;
  masks = refl;
  handles = λ n. refl;
  threads = (refl, refl, refl);
  queues = (refl, refl, refl, refl);
  found = tt;
  usable = tt;
}

main-Finished_example :
    Finished one_line answers script
      (foreground ∷ [])
      shown
      settings
      configured
      (address_line ∷ other_line ∷ [])
main-Finished_example =
    main-Finished one_line answers script (foreground ∷ []) shown settings configured true 7 log
      (b'y' ∷ []) portions (address_line ∷ other_line ∷ []) answers-configured shown-IsGranted
      (refl, refl, refl) refl refl lines-AllLines
      (record { fits = omega arith; open_line = (omega arith, tt) }) lines-AllCountable
