-- ===== src/Tls.antt =====
-- src/network/netssl.c and src/network/sslutils.c: the TLS contexts of the client and of the server, their set up
-- from the configuration, and their end. OpenSSL itself is a parameter.
pub mod Secured
pub mod Handshake
mod Tests
use agentsmith.Base.{
  ℕ, zero, suc, ◌+◌, Bool, true, false, not, Option, none, some, ◌==◌, ◌||◌, ltb, if◌then◌else◌,
  length,
}
use agentsmith.Base.Outcome.{Outcome, ret, die, undefined, ◌>>=◌, ◌>>◌, assert}
use agentsmith.Base.Cstring.{Bytes, c_str}
use agentsmith.Settings.{Settings}

-- What OpenSSL and the system answer: whether the version is before 1.1.0, the number of its locks, whether the
-- two `calloc` for them find memory, the result of `pthread_mutex_init` for each; whether `SSL_CTX_new` gives a
-- context to the client and to the server; whether a CA file, a certificate, a key and a CRL file can be loaded;
-- whether `X509_STORE_add_crl`, `X509_VERIFY_PARAM_new` and `X509_STORE_set1_param` succeed.
pub record Openssl : Type 0 where
  pub old : Bool
  pub num_locks : ℕ
  pub lock_cs : Bool
  pub lock_count : Bool
  pub mutex : ℕ → ℕ
  pub client_ctx : Bool
  pub server_ctx : Bool
  pub load_verify_locations : Bytes → Bool
  pub use_certificate_file : Bytes → Bool
  pub use_private_key_file : Bytes → Bool
  pub bio_new : Bool
  pub bio_read_filename : Bytes → Bool
  pub pem_read_crl : Bytes → Bool
  pub store_add_crl : Bool
  pub verify_param_new : Bool
  pub set1_param : Bool

-- `SSL_CTX`: what the program sets in it. The flags are SSL_VERIFY_PEER with SSL_VERIFY_FAIL_IF_NO_PEER_CERT, and
-- SSL_VERIFY_CLIENT_ONCE; `crl` is the list in its store, and `crl_check` whether X509_V_FLAG_CRL_CHECK is set there.
pub record Context : Type 0 where
  pub verify_peer : Bool
  pub client_once : Bool
  pub ca_file : Option Bytes
  pub certificate : Option Bytes
  pub private_key : Option Bytes
  pub crl : Option Bytes
  pub crl_check : Bool

-- The statics of both files; `locks` is how many mutexes there are.
pub record Tls : Type 0 where
  pub initialized : Bool
  pub client : Option Context
  pub server : Option Context
  pub locks : ℕ

abbrev pub is_null : {A : Type 0} → Option A → Bool
is_null none = true
is_null (some a) = false

-- As the program starts.
abbrev pub fresh : Tls
fresh = record { initialized = false; client = none; server = none; locks = 0 }

-- `SSL_CTX_new`
abbrev pub new_context : Bool → Option Context
new_context false = none
new_context true = some (record {
  verify_peer = false;
  client_once = false;
  ca_file = none;
  certificate = none;
  private_key = none;
  crl = none;
  crl_check = false;
})

-- The loop of `initialize_locking`, with `left` mutexes left from the i-th on.
unfoldable pub init_locks : (ℕ → ℕ) → ℕ → ℕ → Outcome (Unit {0})
init_locks mutex i zero = ret tt
init_locks mutex i (suc left) = if mutex i == 0 then init_locks mutex (i + 1) left else die 1

-- `initialize_locking`: the number of mutexes. Newer versions need none.
unfoldable pub initialize_locking : Openssl → Outcome ℕ
unfolding init_locks
initialize_locking o =
    if o.old
    then (if o.lock_cs
        then (if o.lock_count
            then (do init_locks o.mutex 0 o.num_locks; ret o.num_locks)
            else die 1)
        else die 1)
    else ret 0

-- `deinitialize_locking`; failures are only logged.
unfoldable pub deinitialize_locking : Openssl → ℕ → ℕ
deinitialize_locking o locks = if o.old then 0 else locks

-- The errors that `_sslutils_verify_callback` tells apart.
pub data VerifyError : Type 0 where
  unable_to_get_issuer_cert not_yet_valid not_before_field has_expired not_after_field : VerifyError
  no_explicit_policy other_error : VerifyError

-- `_sslutils_verify_callback`, with the verdict of OpenSSL. `%s` gets a pointer to a structure in three of the
-- messages.
unfoldable pub verify_callback : Bool → VerifyError → Outcome Bool
verify_callback verdict unable_to_get_issuer_cert = undefined
verify_callback verdict not_yet_valid = undefined
verify_callback verdict not_before_field = undefined
verify_callback verdict has_expired = undefined
verify_callback verdict not_after_field = undefined
verify_callback verdict no_explicit_policy = ret verdict
verify_callback verdict other_error = ret verdict

-- `_load_crl`
unfoldable pub load_crl : Openssl → Bytes → Option Bytes
load_crl o file =
    if o.bio_new
    then (if o.bio_read_filename file
        then (if o.pem_read_crl file then some file else none)
        else none)
    else none

-- `_add_crl_to_ssl_ctx`. The results of the three calls on the store are not looked at. Without a new parameter
-- the pointer is NULL, which `X509_VERIFY_PARAM_set_flags` writes through.
unfoldable pub add_crl_to_ssl_ctx : Openssl → Settings → Context → Outcome Context
unfolding load_crl
add_crl_to_ssl_ctx o s x = elim (load_crl o s.ssl_crl_file) [
  | none ↦ die 1
  | some crl ↦
      if o.verify_param_new
      then ret (record x {
        crl = if o.store_add_crl then some crl else x.crl;
        crl_check = if o.set1_param then true else x.crl_check;
      })
      else undefined
]

-- `client_verification`
unfoldable pub client_verification : Openssl → Settings → Context → Outcome Context
unfolding add_crl_to_ssl_ctx
client_verification o s x =
    if o.load_verify_locations s.ssl_ca_file
    then (if o.use_certificate_file s.ssl_client_cert
        then (if o.use_private_key_file s.ssl_client_key
            then add_crl_to_ssl_ctx o s (record x {
              verify_peer = true;
              ca_file = some s.ssl_ca_file;
              certificate = some s.ssl_client_cert;
              private_key = some s.ssl_client_key;
            })
            else die 1)
        else die 1)
    else die 1

-- `server_verification`
unfoldable pub server_verification : Openssl → Settings → Context → Outcome Context
unfolding add_crl_to_ssl_ctx
server_verification o s x =
    if o.load_verify_locations s.ssl_ca_file
    then (if o.use_certificate_file s.ssl_server_cert
        then (if o.use_private_key_file s.ssl_server_key
            then add_crl_to_ssl_ctx o s (record x {
              verify_peer = true;
              client_once = true;
              ca_file = some s.ssl_ca_file;
              certificate = some s.ssl_server_cert;
              private_key = some s.ssl_server_key;
            })
            else die 1)
        else die 1)
    else die 1

-- `strlen(file) < 1` ends the program.
unfoldable pub specified : Bytes → Outcome (Unit {0})
specified file = if ltb (length (c_str file)) 1 then die 1 else ret tt

-- The part of `netssl_initialize` for the client.
unfoldable pub initialize_client : Openssl → Settings → Tls → Outcome Tls
unfolding specified client_verification
initialize_client o s t = do
  specified s.ssl_ca_file
  specified s.ssl_crl_file
  specified s.ssl_client_cert
  specified s.ssl_client_key
  elim (new_context o.client_ctx) [
    | none ↦ die 1
    | some x ↦ do x' ← client_verification o s x; ret (record t { client = some x' })
  ]

-- The new context of the server: a version before 1.1.0 has it in the variable of the client.
abbrev pub assign_server : Bool → Option Context → Tls → Tls
assign_server true x t = record t { client = x }
assign_server false x t = record t { server = x }

-- The part of `netssl_initialize` for the server.
unfoldable pub initialize_server : Openssl → Settings → Tls → Outcome Tls
unfolding specified server_verification
initialize_server o s t = do
  specified s.ssl_ca_file
  specified s.ssl_crl_file
  specified s.ssl_server_cert
  specified s.ssl_server_key
  let t' = assign_server o.old (new_context o.server_ctx) t
  elim t'.server [
    | none ↦ die 1
    | some x ↦ do x' ← server_verification o s x; ret (record t' { server = some x' })
  ]

-- `netssl_initialize`
unfoldable pub netssl_initialize : Openssl → Settings → Tls → Outcome Tls
unfolding initialize_locking initialize_client initialize_server
netssl_initialize o s t = do
  assert (not t.initialized)
  assert (is_null t.client)
  assert (is_null t.server)
  locks ← initialize_locking o
  let t' = record t { locks = locks }
  t'' ← if s.numbers.inform == 0 then ret t' else initialize_client o s t'
  t''' ← if s.numbers.server == 0 then ret t'' else initialize_server o s t''
  ret (record t''' { initialized = true })

-- `netssl_disintegrate`, which leaves `ssl_initialized` as it is.
unfoldable pub netssl_disintegrate : Openssl → Settings → Tls → Outcome Tls
unfolding deinitialize_locking
netssl_disintegrate o s t = do
  assert t.initialized
  assert (s.numbers.inform == 0 || not (is_null t.client))
  assert (s.numbers.server == 0 || not (is_null t.server))
  ret (record t {
    client = if s.numbers.inform == 0 then t.client else none;
    server = if s.numbers.server == 0 then t.server else none;
    locks = deinitialize_locking o t.locks;
  })
