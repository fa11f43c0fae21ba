-- ===== src/Program/Tests.antt =====
-- The start of src/main.c with one agent to inform.
use agentsmith.Base.{true, false, none, ◌≡◌, refl}
use agentsmith.Base.Outcome.{ret, locked}
use agentsmith.Program.Samples.{boot, settings}
use agentsmith.Watch.{Pcre}
use agentsmith.Program.{CommandLine, System, launch_exclude_readfile, read_exclude, set_up}
use agentsmith.Slots.{unstarted, start}
use agentsmith.Exclude.Rules.{exclude_clear}
use agentsmith.Exclude.File.{fgets, read_line, read_lines, exclude_readfile}
use agentsmith.Program.Secure.{IsSecure, set_up-IsSecure}
use agentsmith.Program.Starting.{IsGranted, IsUp, set_up-IsUp}

abbrev expression : Pcre
expression = record {
  compiles = true;
  studies = true;
  fullinfo = 0;
  capturecount = 1;
  exec = λ text. (0, 0, 0);
}

abbrev in_foreground : CommandLine
in_foreground = record { cfgfile = none; pidfile = none; testonly = false; daemonmode = false }

boot-IsGranted : IsGranted expression boot in_foreground settings
unfolding agentsmith.Base.Cstring.c_str read_exclude launch_exclude_readfile exclude_readfile
    exclude_clear read_lines read_line fgets unstarted start locked
boot-IsGranted = record {
  compiles = (refl, refl, refl, refl);
  stays = refl;
  records = (refl, refl);
  exclude = (refl, refl);
  secure = λ h. (refl, refl);
  rules = _;
  reads = refl;
  masks = refl;
  handles = λ n. refl;
  threads = (refl, refl, refl);
  queues = (refl, refl, refl, refl);
  found = tt;
  usable = (refl, refl, tt);
}

set_up-IsUp_example :
    (y : System) × (set_up expression boot in_foreground settings ≡ ret y) × IsUp boot settings y
set_up-IsUp_example = set_up-IsUp expression boot in_foreground settings boot-IsGranted

booted :
    (y : System) × (set_up expression boot in_foreground settings ≡ ret y) × IsUp boot settings y
booted = set_up-IsUp expression boot in_foreground settings boot-IsGranted

set_up-IsSecure_example : IsSecure boot settings booted.0
set_up-IsSecure_example = set_up-IsSecure expression boot in_foreground settings booted.0 booted.1
