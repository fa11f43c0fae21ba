-- ===== src/Wire/Tests.antt =====
-- Runs of src/network/netshared.c on one command.
use agentsmith.Base.{ℕ, zero, suc, ◌-◌, ◌^◌, ◌<◌, ◌∷◌, ◌++◌, ◌≡◌, refl, arith, replicate}
use agentsmith.Base.Outcome.{ret}
use agentsmith.Base.Cstring.{Bytes}
use agentsmith.Records.{HostRecord, localhost}
use agentsmith.Wire.{remote_command_size, net_command_to_buff, net_buff_to_command}
use agentsmith.Wire.Memory.{IsBytes}
use agentsmith.Wire.RoundTrip.{
  IsHostRecord, net_buff_to_command-net_command_to_buff, net_command_to_buff-net_buff_to_command,
}

abbrev sender : HostRecord
sender = record {
  origin = localhost ++ replicate 37 0;
  ipaddr = b':' ∷ b':' ∷ b'1' ∷ replicate 43 0;
  firstseen = 1_300_000_000;
  lastseen = 1_300_000_060;
  purge_after = 3600;
  time_interval = 60;
  occurrences = 2;
  action_threshold = 3;
  remove = 2 ^ 32 - 1;
  processed = 0;
}

abbrev message : Bytes
message = replicate 144 200

sender-IsHostRecord : IsHostRecord sender
sender-IsHostRecord = record {
  origin_size = refl;
  ipaddr_size' = refl;
  firstseen_lt = omega arith;
  lastseen_lt = omega arith;
  purge_after_lt = omega arith;
  time_interval_lt = omega arith;
  occurrences_lt = omega arith;
  action_threshold_lt = omega arith;
  remove_lt = omega arith;
  processed_lt = omega arith;
}

IsBytes-replicate : (n b : ℕ) → b < 256 → IsBytes (replicate n b)
IsBytes-replicate zero b h = tt
IsBytes-replicate (suc n) b h = (h, IsBytes-replicate n b h)

net_buff_to_command-net_command_to_buff_example :
    (buff : Bytes) × (net_command_to_buff 0 sender remote_command_size
      ≡ ret (buff, remote_command_size))
    × (net_buff_to_command buff ≡ (0, sender, remote_command_size))
net_buff_to_command-net_command_to_buff_example =
    net_buff_to_command-net_command_to_buff 0 sender (omega arith) sender-IsHostRecord

net_command_to_buff-net_buff_to_command_example :
    let (c, r, n) = net_buff_to_command message in net_command_to_buff c r n ≡ ret (message, n)
net_command_to_buff-net_buff_to_command_example =
    net_command_to_buff-net_buff_to_command message (IsBytes-replicate 144 200 (omega arith)) refl
