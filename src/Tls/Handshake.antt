-- ===== src/Tls/Handshake.antt =====
-- `netssl_client` and `netssl_server` of src/network/netssl.c: the handshake on a socket, and the two pointers that it
-- sets for its caller.
use agentsmith.Base.{ℕ, ◌+◌, Bool, true, false, not, ◌&&◌, ◌≡◌, arith, if◌then◌else◌}
use agentsmith.Base.Outcome.{Outcome, ret, ◌>>◌, assert, Retval, ok, err}

-- Whether `*ssl` and `*sbio` are not NULL, and how many objects of the type SSL there are.
pub record Session : Type 0 where
  pub ssl : Bool
  pub sbio : Bool
  pub objects : ℕ

-- Whether `SSL_new` and `BIO_new_socket` give an object, and whether `SSL_connect` or `SSL_accept` returns 1.
pub record HandshakeEnv : Type 0 where
  pub ssl_new : Bool
  pub bio_new_socket : Bool
  pub shakes : Bool

-- `netssl_client`; the flags say whether the socket is not negative and whether there is a context.
unfoldable pub netssl_client :
    HandshakeEnv → (sockfd context : Bool) → Session → Outcome (Session × Retval)
netssl_client e sockfd context s = do
  assert (not s.ssl)
  assert (not s.sbio)
  assert sockfd
  assert context
  if not e.ssl_new
      then ret (record s { sbio = false }, err)
      else if not e.bio_new_socket
      then ret (record s { ssl = false; sbio = false }, err)
      else if not e.shakes
      then ret (record s { ssl = false; sbio = false }, err)
      else ret (record { ssl = true; sbio = true; objects = s.objects + 1 }, ok)

-- `netssl_server`, which does not clear `*sbio` after a failed handshake.
unfoldable pub netssl_server :
    HandshakeEnv → (sockfd context : Bool) → Session → Outcome (Session × Retval)
netssl_server e sockfd context s = do
  assert (not s.ssl)
  assert (not s.sbio)
  assert sockfd
  assert context
  if not e.ssl_new
      then ret (record s { sbio = false }, err)
      else if not e.bio_new_socket
      then ret (record s { ssl = false; sbio = false }, err)
      else if not e.shakes
      then ret (record s { ssl = false; sbio = true }, err)
      else ret (record { ssl = true; sbio = true; objects = s.objects + 1 }, ok)

-- How a handshake ends: it succeeds with both pointers set and one more object, or fails with none more.
abbrev pub shook : HandshakeEnv → Bool
shook e = e.ssl_new && e.bio_new_socket && e.shakes

abbrev pub closed : ℕ → Session
closed n = record { ssl = false; sbio = false; objects = n }

abbrev pub opened : ℕ → Session
opened n = record { ssl = true; sbio = true; objects = n }

-- When both pointers are NULL, and there are a socket and a context, the assertions of `netssl_client` hold.
-- It succeeds exactly when OpenSSL gives both objects and the handshake does, with both pointers set. After
-- an error both are NULL, as the next call wants them, and no object is left.
pub netssl_client_cases :
    (e : HandshakeEnv) (n : ℕ)
    → netssl_client e true true (closed n)
      ≡ (if shook e then ret (opened (n + 1), ok) else ret (closed n, err))
unfolding netssl_client
netssl_client_cases e n = ground arith

-- The server differs in one case: a handshake that fails leaves the pointer to the BIO, which is freed.
pub netssl_server_cases :
    (e : HandshakeEnv) (n : ℕ)
    → netssl_server e true true (closed n) ≡ (
        if shook e
        then ret (opened (n + 1), ok)
        else ret (record { ssl = false; sbio = e.ssl_new && e.bio_new_socket; objects = n }, err))
unfolding netssl_server
netssl_server_cases e n = ground arith
