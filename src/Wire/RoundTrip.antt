-- ===== src/Wire/RoundTrip.antt =====
-- What `net_buff_to_command` of src/network/netshared.c reads is what `net_command_to_buff` wrote.
use agentsmith.Base.{
  ℕ, ◌^◌, ◌<◌, List, [], ◌∷◌, ◌++◌, ◌≡◌, refl, sym, ap, ◌∙◌, arith, length, get_or, ap₂, ◌+◌, ◌≤◌,
}
use agentsmith.Base.Outcome.{Outcome, ret}
use agentsmith.Base.Cstring.{Bytes}
use agentsmith.Records.{HostRecord, ipaddr_size}
use agentsmith.Wire.{
  remote_command_size, to_memory, of_memory, htonll, ntohll, htonl, ntohl, net_command_to_buff,
  net_buff_to_command, memory_at,
}
use agentsmith.Wire.Memory.{
  IsBytes, length-to_memory, long_round_trip, int_round_trip, long_round_trip_back,
  int_round_trip_back,
}
use agentsmith.Wire.Chunks.{
  flat, length-flat, HasSizes, offset, cut, memory_at-flat, memory_at-cut, flat-cut,
  IsBytes-memory_at, length-memory_at,
}

-- The sizes of the members on the wire.
abbrev sizes : List ℕ
sizes = 4 ∷ 46 ∷ 46 ∷ 8 ∷ 8 ∷ 8 ∷ 8 ∷ 4 ∷ 4 ∷ 4 ∷ 4 ∷ []

abbrev pub chunks : ℕ → HostRecord → List Bytes
chunks c r =
    to_memory 4 (htonl c)
    ∷ r.origin
    ∷ r.ipaddr
    ∷ to_memory 8 (htonll r.firstseen)
    ∷ to_memory 8 (htonll r.lastseen)
    ∷ to_memory 8 (htonll r.purge_after)
    ∷ to_memory 8 (htonll r.time_interval)
    ∷ to_memory 4 (htonl r.occurrences)
    ∷ to_memory 4 (htonl r.action_threshold)
    ∷ to_memory 4 (htonl r.remove)
    ∷ to_memory 4 (htonl r.processed)
    ∷ []

-- The members are values of their C types.
pub record IsHostRecord (r : HostRecord) : Type 0 where
  pub origin_size : length r.origin ≡ ipaddr_size
  pub ipaddr_size' : length r.ipaddr ≡ ipaddr_size
  pub firstseen_lt : r.firstseen < 2 ^ 64
  pub lastseen_lt : r.lastseen < 2 ^ 64
  pub purge_after_lt : r.purge_after < 2 ^ 64
  pub time_interval_lt : r.time_interval < 2 ^ 64
  pub occurrences_lt : r.occurrences < 2 ^ 32
  pub action_threshold_lt : r.action_threshold < 2 ^ 32
  pub remove_lt : r.remove < 2 ^ 32
  pub processed_lt : r.processed < 2 ^ 32

chunks-HasSizes : (c : ℕ) (r : HostRecord) → IsHostRecord r → HasSizes (chunks c r) sizes
chunks-HasSizes c r w = (
  long4 c,
  (
    w.origin_size,
    (
      w.ipaddr_size',
      (long8 _, (long8 _, (long8 _, (long8 _, (long4 _, (long4 _, (long4 _, (long4 _, tt)))))))),
    ),
  ),
)
  where
    long4 : (x : ℕ) → length (to_memory 4 (htonl x)) ≡ 4
    long4 x = length-to_memory 4 (htonl x)

    long8 : (x : ℕ) → length (to_memory 8 (htonll x)) ≡ 8
    long8 x = length-to_memory 8 (htonll x)

pub net_command_to_buff-flat :
    (c : ℕ) (r : HostRecord)
    → net_command_to_buff c r remote_command_size ≡ ret (flat (chunks c r), 144)
unfolding net_command_to_buff
net_command_to_buff-flat c r = refl

pub length-net_command_to_buff :
    (c : ℕ) (r : HostRecord) {buff : Bytes}
    → IsHostRecord r
    → net_command_to_buff c r remote_command_size ≡ ret (buff, remote_command_size)
    → length buff ≡ remote_command_size
length-net_command_to_buff c r {buff} w h =
    ap length (same_buff (sym h ∙ net_command_to_buff-flat c r))
    ∙ length-flat (chunks c r) sizes (chunks-HasSizes c r w)
  where
    same_buff :
        {a b : Bytes} {m n : ℕ} → ◌≡◌ {A = Outcome (Bytes × ℕ)} (ret (a, m)) (ret (b, n)) → a ≡ b
    same_buff e = cc

-- A command and a record with members in the range of their C types are read back from the buffer
-- that `net_command_to_buff` fills, and both functions report 144 bytes.
pub net_buff_to_command-net_command_to_buff :
    (c : ℕ) (r : HostRecord)
    → c < 2 ^ 32
    → IsHostRecord r
    → (buff : Bytes) × (net_command_to_buff c r remote_command_size
        ≡ ret (buff, remote_command_size))
      × (net_buff_to_command buff ≡ (c, r, remote_command_size))
unfolding net_buff_to_command
net_buff_to_command-net_command_to_buff c r h w = (
  flat (chunks c r),
  net_command_to_buff-flat c r,
  λ i. (
    (int (at 0) ∙ int_round_trip c h) i,
    record {
      origin = at 1 i;
      ipaddr = at 2 i;
      firstseen = (long (at 3) ∙ long_round_trip r.firstseen w.firstseen_lt) i;
      lastseen = (long (at 4) ∙ long_round_trip r.lastseen w.lastseen_lt) i;
      purge_after = (long (at 5) ∙ long_round_trip r.purge_after w.purge_after_lt) i;
      time_interval = (long (at 6) ∙ long_round_trip r.time_interval w.time_interval_lt) i;
      occurrences = (int (at 7) ∙ int_round_trip r.occurrences w.occurrences_lt) i;
      action_threshold = (int (at 8) ∙ int_round_trip r.action_threshold w.action_threshold_lt) i;
      remove = (int (at 9) ∙ int_round_trip r.remove w.remove_lt) i;
      processed = (int (at 10) ∙ int_round_trip r.processed w.processed_lt) i;
    },
    remote_command_size,
  ),
)
  where
    at :
        (i : ℕ)
        → memory_at (flat (chunks c r)) (offset sizes i) (get_or sizes i 0)
          ≡ get_or (chunks c r) i []
    at i = memory_at-flat (chunks c r) sizes i (chunks-HasSizes c r w)

    int : {a b : Bytes} → a ≡ b → ntohl (of_memory a) ≡ ntohl (of_memory b)
    int p = ap (λ t. ntohl (of_memory t)) p

    long : {a b : Bytes} → a ≡ b → ntohll (of_memory a) ≡ ntohll (of_memory b)
    long p = ap (λ t. ntohll (of_memory t)) p

-- Any 144 bytes that are read as a command are written back as they were: every bit of the buffer
-- has its place in the command or in a member of the record.
pub net_command_to_buff-net_buff_to_command :
    (buff : Bytes)
    → IsBytes buff
    → length buff ≡ remote_command_size
    → let (c, r, n) = net_buff_to_command buff in net_command_to_buff c r n ≡ ret (buff, n)
unfolding net_command_to_buff net_buff_to_command
net_command_to_buff-net_buff_to_command buff b h =
    ap (λ t. ret (t, remote_command_size)) (written ∙ flat-cut buff sizes h)
  where
    piece :
        (i : ℕ) → memory_at buff (offset sizes i) (get_or sizes i 0) ≡ get_or (cut sizes buff) i []
    piece i = memory_at-cut buff sizes i

    int :
        (pos : ℕ)
        → pos + 4 ≤ length buff
        → to_memory 4 (htonl (ntohl (of_memory (memory_at buff pos 4)))) ≡ memory_at buff pos 4
    int pos le =
        int_round_trip_back (memory_at buff pos 4) (IsBytes-memory_at buff pos 4 b)
          (length-memory_at buff pos 4 le)

    long :
        (pos : ℕ)
        → pos + 8 ≤ length buff
        → to_memory 8 (htonll (ntohll (of_memory (memory_at buff pos 8)))) ≡ memory_at buff pos 8
    long pos le =
        long_round_trip_back (memory_at buff pos 8) (IsBytes-memory_at buff pos 8 b)
          (length-memory_at buff pos 8 le)

    written :
        flat (chunks (net_buff_to_command buff).0 (net_buff_to_command buff).1)
        ≡ flat (cut sizes buff)
    written = ap₂ ◌++◌ (int 0 (omega arith) ∙ piece 0) (
        ap₂ ◌++◌ (piece 1) (
          ap₂ ◌++◌ (piece 2) (
            ap₂ ◌++◌ (long 96 (omega arith) ∙ piece 3) (
              ap₂ ◌++◌ (long 104 (omega arith) ∙ piece 4) (
                ap₂ ◌++◌ (long 112 (omega arith) ∙ piece 5) (
                  ap₂ ◌++◌ (long 120 (omega arith) ∙ piece 6) (
                    ap₂ ◌++◌ (int 128 (omega arith) ∙ piece 7) (
                      ap₂ ◌++◌ (int 132 (omega arith) ∙ piece 8) (
                        ap₂ ◌++◌ (int 136 (omega arith) ∙ piece 9)
                          (int 140 (omega arith) ∙ piece 10))))))))))
