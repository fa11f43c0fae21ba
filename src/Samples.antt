-- ===== src/Samples.antt =====
-- Values that the runs of several parts start from: a system that grants everything, a configuration, and a
-- vector of src/records.c with one record.
use agentsmith.Base.{
  ℕ, true, List, [], ◌∷◌, ◌++◌, some, none, refl, inl, inr, arith, equal, replicate, if◌then◌else◌,
}
use agentsmith.Base.Outcome.{Env}
use agentsmith.Base.Cstring.{Bytes, c_str}
use agentsmith.Config.{Config}
use agentsmith.Slots.{unstarted, start, store}
use agentsmith.Slots.Layout.{start-IsLaidOut, store-IsLaidOut}
use agentsmith.Records.{HostRecord, Vector, localhost}
use agentsmith.Records.Lookup.{IsValid}
use agentsmith.Records.Add.{IsServing}
use agentsmith.Wire.RoundTrip.{IsHostRecord}
use agentsmith.Exclude.Address.{
  Parsed, inet, exclude_parse_ip, split_at, contains, parse_prefix, chomp,
}
use agentsmith.Exclude.Rules.{Inet}
use agentsmith.Watch.{Pcre, LineEnv}
use agentsmith.Follow.Lines.{AllLines}
use agentsmith.Follow.Counted.{AllCountable}
use agentsmith.Watch.Matching.{IsAddress}

abbrev pub serving : Env
serving = record { lock = 0; unlock = 0; malloc = true; copy = true; realloc = true; now = 5000 }

pub serving-IsServing : IsServing serving
serving-IsServing = record { locks = refl; unlocks = refl; mallocs = refl; reallocs = refl }

abbrev pub numbers : Config
numbers = record {
  action_threshold = 3;
  time_interval = 60;
  purge_after = 3600;
  server = 1;
  server_timeout = 15;
  server_backlog = 5;
  maxinconnections = 10;
  inform = 1;
  inform_retry = 3;
  inform_retry_wait = 5;
  remote_authoritative = 1;
}

-- "1.2.3.4"
abbrev pub address : Bytes
address = b'1' ∷ b'.' ∷ b'2' ∷ b'.' ∷ b'3' ∷ b'.' ∷ b'4' ∷ []

abbrev pub attack : HostRecord
attack = record {
  origin = localhost ++ replicate 37 0;
  ipaddr = address ++ replicate 39 0;
  firstseen = 4990;
  lastseen = 4995;
  purge_after = 3600;
  time_interval = 60;
  occurrences = 3;
  action_threshold = 3;
  remove = 0;
  processed = 0;
}

pub attack-IsHostRecord : IsHostRecord attack
attack-IsHostRecord = record {
  origin_size = refl;
  ipaddr_size' = refl;
  firstseen_lt = omega arith;
  lastseen_lt = omega arith;
  purge_after_lt = omega arith;
  time_interval_lt = omega arith;
  occurrences_lt = omega arith;
  action_threshold_lt = omega arith;
  remove_lt = omega arith;
  processed_lt = omega arith;
}

abbrev pub attacked : Vector
attacked = store (start unstarted) 0 attack

pub attacked-IsValid : IsValid attacked
unfolding store start unstarted c_str equal
attacked-IsValid = record {
  laid_out = store-IsLaidOut _ 0 _ (start-IsLaidOut unstarted refl refl) (omega arith);
  unique = (refl, tt);
}

-- Every address is known.
abbrev pub known : Inet
known = record { pton4 = λ text. some 10; pton6 = λ text. none }

abbrev pub line_env : LineEnv
line_env = record { exclude = serving; records = serving }

abbrev pub parsed : Parsed
parsed = record { ip = address; prefix = 32; af = inet }

pub address-IsAddress : IsAddress known line_env address parsed
unfolding exclude_parse_ip split_at contains parse_prefix chomp c_str
address-IsAddress = record {
  locks = refl;
  unlocks = refl;
  parses = refl;
  whole = refl;
  short = omega arith;
  serves = serving-IsServing;
}

-- A line that is an address, one that does not match, and the start of a third, in two portions.
abbrev pub address_line : Bytes
address_line = address ++ b'\n' ∷ []

abbrev pub other_line : Bytes
other_line = b'x' ∷ b'\n' ∷ []

abbrev pub portions : List Bytes
portions = (address_line ++ b'x' ∷ []) ∷ (b'\n' ∷ b'y' ∷ []) ∷ []

-- Only the first of them matches, with its first seven bytes.
abbrev pub one_line : Pcre
one_line = record {
  compiles = true;
  studies = true;
  fullinfo = 0;
  capturecount = 1;
  exec = λ text. if equal text address_line then (2, 0, 7) else (0, 0, 0);
}

abbrev pub every : ℕ → LineEnv
every n = line_env

pub lines-AllLines : AllLines (address_line ∷ other_line ∷ [])
lines-AllLines = (
  record {
    front = address;
    last = b'\n';
    parts = refl;
    one_newline = (
      omega arith,
      (omega arith, (omega arith, (omega arith, (omega arith, (omega arith, (omega arith, tt)))))),
    );
    fits = omega arith;
    ended = inl refl;
  },
  (
    record {
      front = b'x' ∷ [];
      last = b'\n';
      parts = refl;
      one_newline = (omega arith, tt);
      fits = omega arith;
      ended = inl refl;
    },
    tt,
  ),
)

pub lines-AllCountable : AllCountable one_line known every 0 (address_line ∷ other_line ∷ [])
unfolding c_str equal
lines-AllCountable = (
  inr (record {
    from = 0;
    until = 7;
    parsed = parsed;
    matches = refl;
    forward = omega arith;
    fits = omega arith;
    copies = refl;
    address = address-IsAddress;
  }),
  (inl (omega arith), tt),
)
