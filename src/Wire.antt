-- ===== src/Wire.antt =====
-- src/network/netshared.c: the command that an agentsmith sends to another, a fixed block of 144
-- bytes with its integers in network byte order. The host is little-endian (WORDS_BIGENDIAN unset).
pub mod Memory
pub mod Chunks
pub mod RoundTrip
mod Tests
use agentsmith.Base.{
  ℕ, zero, suc, ◌+◌, ◌-◌, ◌*◌, ◌/◌, ◌%◌, List, [], ◌∷◌, ◌++◌, ◌==◌, take, drop, get_or,
  if◌then◌else◌,
}
use mathlib.Core.List.{reverse}
use agentsmith.Base.Outcome.{Outcome, ret, aborted, ◌>>=◌, ◌>>◌, assert}
use agentsmith.Base.Cstring.{Bytes}
use agentsmith.Records.{HostRecord, ipaddr_size}

-- REMOTE_COMMAND_SIZE
abbrev pub remote_command_size : ℕ
remote_command_size = 144

-- The n bytes of an integer in memory, and the integer of some bytes.
unfoldable pub to_memory : ℕ → ℕ → Bytes
to_memory zero x = []
to_memory (suc n) x = x % 256 ∷ to_memory n (x / 256)

unfoldable pub of_memory : Bytes → ℕ
of_memory [] = 0
of_memory (b ∷ bs) = b + 256 * of_memory bs

-- `for (i = 0; i < 8; i++) sb->__byte__[i] = sa->__byte__[7 - i];`, for the n rounds left.
unfoldable pub swap_bytes : Bytes → ℕ → ℕ → Bytes
swap_bytes sa i zero = []
swap_bytes sa i (suc n) = get_or sa (7 - i) 0 ∷ swap_bytes sa (i + 1) n

unfoldable pub htonll : ℕ → ℕ
unfolding swap_bytes to_memory of_memory
htonll a = of_memory (swap_bytes (to_memory 8 a) 0 8)

unfoldable pub ntohll : ℕ → ℕ
unfolding htonll
ntohll a = htonll a

-- `htonl` and `ntohl` of the C library: the four bytes in reverse.
unfoldable pub htonl : ℕ → ℕ
unfolding to_memory of_memory
htonl a = of_memory (reverse (to_memory 4 a))

unfoldable pub ntohl : ℕ → ℕ
unfolding htonl
ntohl a = htonl a

-- The integer members of a record, as the sender copies them behind the two addresses.
unfoldable pub numbers_to_buff : HostRecord → Bytes
numbers_to_buff rec =
    to_memory 8 (htonll rec.firstseen)
    ++ (to_memory 8 (htonll rec.lastseen)
        ++ (to_memory 8 (htonll rec.purge_after)
            ++ (to_memory 8 (htonll rec.time_interval)
                ++ (to_memory 4 (htonl rec.occurrences)
                    ++ (to_memory 4 (htonl rec.action_threshold)
                        ++ (to_memory 4 (htonl rec.remove)
                            ++ to_memory 4 (htonl rec.processed)))))))

-- `net_command_to_buff`: the buffer as it is filled, and the position after it.
unfoldable pub net_command_to_buff : ℕ → HostRecord → ℕ → Outcome (Bytes × ℕ)
unfolding numbers_to_buff
net_command_to_buff command rec buffsize = do
  assert (buffsize == remote_command_size)
  let pos = 4 + ipaddr_size + ipaddr_size + 8 + 8 + 8 + 8 + 4 + 4 + 4 + 4
  assert (pos == buffsize)
  assert (pos == remote_command_size)
  ret (to_memory 4 (htonl command) ++ (rec.origin ++ (rec.ipaddr ++ numbers_to_buff rec)), pos)

-- `memcpy(&val, buff + pos, n)`
unfoldable pub memory_at : Bytes → ℕ → ℕ → Bytes
memory_at buff pos n = take n (drop pos buff)

-- `net_buff_to_command`: the command, the record and the position after them.
unfoldable pub net_buff_to_command : Bytes → ℕ × HostRecord × ℕ
net_buff_to_command buff = (
  ntohl (of_memory (memory_at buff 0 4)),
  record {
    origin = memory_at buff 4 ipaddr_size;
    ipaddr = memory_at buff 50 ipaddr_size;
    firstseen = ntohll (of_memory (memory_at buff 96 8));
    lastseen = ntohll (of_memory (memory_at buff 104 8));
    purge_after = ntohll (of_memory (memory_at buff 112 8));
    time_interval = ntohll (of_memory (memory_at buff 120 8));
    occurrences = ntohl (of_memory (memory_at buff 128 4));
    action_threshold = ntohl (of_memory (memory_at buff 132 4));
    remove = ntohl (of_memory (memory_at buff 136 4));
    processed = ntohl (of_memory (memory_at buff 140 4));
  },
  144,
)
