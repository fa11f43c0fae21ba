-- ===== src/Exclude/Mask.antt =====
-- The netmasks of src/exclude.c, and the test whether an address lies in a network. An `in_addr_t` is
-- a 32-bit integer in network order, an `in6_addr_t` its 16 bytes.
use Prim.Native.Nat.{bit_and}
use agentsmith.Base.{
  ℕ, zero, suc, ◌+◌, ◌-◌, ◌*◌, ◌/◌, ◌%◌, ◌^◌, Bool, true, false, ◌==◌, ltb, leb, if◌then◌else◌,
  replicate, set, get_or,
}
use agentsmith.Base.Outcome.{Outcome, ret, undefined, ◌>>=◌, ◌>>◌, assert}
use agentsmith.Base.Cstring.{Bytes}
use agentsmith.Wire.{htonl}

-- `0xffffffff << n` on 32 bits; a shift by 32 or more is undefined.
unfoldable pub shift_mask : ℕ → Outcome ℕ
shift_mask n = if ltb n 32 then ret (0xffff_ffff * 2 ^ n % 2 ^ 32) else undefined

-- The mask of an IPv4 prefix, as `exclude_add` computes it.
unfoldable pub ipv4_mask : ℕ → Outcome ℕ
unfolding shift_mask
ipv4_mask prefix = do mask ← shift_mask (32 - prefix); ret (htonl mask)

-- `for (i = 0; i < n; i++) mask[i] = 0xff;`, for the k rounds left.
unfoldable pub fill_ones : Bytes → ℕ → ℕ → Bytes
fill_ones mask i zero = mask
fill_ones mask i (suc k) = fill_ones (set mask i 0xff) (i + 1) k

-- The mask that `_exclude_prefix_to_ipv6_mask` fills in: whole bytes, then the bits that are left.
unfoldable pub ipv6_mask : ℕ → Bytes
unfolding fill_ones
ipv6_mask prefix =
    let n = prefix / 8 in
    let mask = fill_ones (replicate 16 0) 0 n in
    let m = prefix % 8 in if m == 0 then mask else set mask n (0xff * 2 ^ (8 - m) % 256)

-- `_exclude_prefix_to_ipv6_mask`; it always returns RETVAL_OK.
unfoldable pub prefix_to_ipv6_mask : ℕ → Outcome Bytes
prefix_to_ipv6_mask prefix = do assert (leb prefix 128); ret (ipv6_mask prefix)

-- `_exclude_ipv4_in_net`, true for RETVAL_OK.
unfoldable pub ipv4_in_net : ℕ → ℕ → ℕ → Bool
ipv4_in_net net mask ip = bit_and net mask == bit_and ip mask

-- The loop of `_exclude_ipv6_in_net` over the k bytes left.
unfoldable pub in_net_from : Bytes → Bytes → Bytes → ℕ → ℕ → Bool
in_net_from net mask ip i zero = true
in_net_from net mask ip i (suc k) =
    let rest = in_net_from net mask ip (i + 1) k in
    if bit_and (get_or net i 0) (get_or mask i 0) == bit_and (get_or ip i 0) (get_or mask i 0)
    then rest
    else false

-- `_exclude_ipv6_in_net`, true for RETVAL_OK.
unfoldable pub ipv6_in_net : Bytes → Bytes → Bytes → Bool
unfolding in_net_from
ipv6_in_net net mask ip = in_net_from net mask ip 0 16
