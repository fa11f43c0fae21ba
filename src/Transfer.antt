-- ===== src/Transfer.antt =====
-- `net_read` and `net_write` of src/network/netshared.c: the loops round `read` and `write`, which may
-- move fewer bytes than asked for, or be interrupted.
pub mod Complete
mod Tests
use agentsmith.Base.{
  ℕ, zero, suc, ◌-◌, min, List, [], ◌∷◌, ◌++◌, Option, none, some, take, drop, length,
}
use agentsmith.Base.Cstring.{Bytes}

-- What the system answers to a call of `read` or `write`: it moves so many bytes and one more, as far
-- as they are asked for and there; it is interrupted (EINTR); or it fails with an error number.
pub data Answer : Type 0 where
  moved : ℕ → Answer
  interrupted : Answer
  failed : ℕ → Answer

-- The bytes in the buffer or on the wire, with what is left of the stream, or RETVAL_ERR.
pub data Transfer : Type 0 where
  done : Bytes → Bytes → Transfer
  broken : ℕ → Transfer

-- The loop of `net_read` with `nleft` bytes to go, from a stream that is closed behind its last byte.
-- `none` is a loop that still waits when the answers are used up.
unfoldable pub net_read : List Answer → Bytes → ℕ → Bytes → Option Transfer
net_read answers stream zero buf = some (done buf stream)
net_read [] stream (suc nleft) buf = none
net_read (interrupted ∷ answers) stream (suc nleft) buf = net_read answers stream (suc nleft) buf
net_read (failed errno ∷ answers) stream (suc nleft) buf = some (broken errno)
net_read (moved k ∷ answers) [] (suc nleft) buf = some (done buf [])
net_read (moved k ∷ answers) (b ∷ stream) (suc nleft) buf =
    let nread = take (min (suc k) (suc nleft)) (b ∷ stream) in
    net_read answers (drop (min (suc k) (suc nleft)) (b ∷ stream)) (suc nleft - length nread)
      (buf ++ nread)

-- The loop of `net_write` over the bytes that are left, with what is on the wire.
unfoldable pub net_write : List Answer → Bytes → Bytes → Option Transfer
net_write answers [] sent = some (done sent [])
net_write [] (b ∷ buf) sent = none
net_write (interrupted ∷ answers) (b ∷ buf) sent = net_write answers (b ∷ buf) sent
net_write (failed errno ∷ answers) (b ∷ buf) sent = some (broken errno)
net_write (moved k ∷ answers) (b ∷ buf) sent =
    net_write answers (drop (suc k) (b ∷ buf)) (sent ++ take (suc k) (b ∷ buf))
