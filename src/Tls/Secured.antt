-- ===== src/Tls/Secured.antt =====
-- `netssl_initialize` of src/network/netssl.c: when it succeeds, and which checks of the peer its contexts then have.
use agentsmith.Base.{
  ℕ, zero, suc, ◌+◌, Bool, true, false, not, ◌&&◌, ◌||◌, none, some, ◌==◌, ltb, ◌≡◌, refl, sym, ap,
  ◌∙◌, inl, inr, arith, if◌then◌else◌, Bool-cases, length,
}
use agentsmith.Base.Outcome.{Outcome, ret, die, aborted, undefined, ◌>>=◌}
use agentsmith.Base.Cstring.{Bytes, c_str}
use agentsmith.Settings.{Settings}
use agentsmith.Tls.{
  Openssl, Context, Tls, fresh, init_locks, initialize_locking, load_crl, add_crl_to_ssl_ctx,
  client_verification, server_verification, specified, initialize_client, initialize_server,
  netssl_initialize, netssl_disintegrate, deinitialize_locking,
}

-- A file is named.
abbrev pub is_named : Bytes → Bool
is_named file = not (ltb (length (c_str file)) 1)

-- The CRL file can be opened and read.
abbrev pub loads_crl : Openssl → Settings → Bool
loads_crl o s = o.bio_new && o.bio_read_filename s.ssl_crl_file && o.pem_read_crl s.ssl_crl_file

abbrev pub loads : Openssl → Settings → (certificate key : Bytes) → Bool
loads o s certificate key =
    o.load_verify_locations s.ssl_ca_file
    && o.use_certificate_file certificate
    && o.use_private_key_file key
    && loads_crl o s

abbrev pub names : Settings → (certificate key : Bytes) → Bool
names s certificate key =
    is_named s.ssl_ca_file && is_named s.ssl_crl_file && is_named certificate && is_named key

-- What a client needs: four files that are named and can be loaded, and a context.
abbrev pub serves_client : Openssl → Settings → Bool
serves_client o s =
    names s s.ssl_client_cert s.ssl_client_key
    && o.client_ctx
    && loads o s s.ssl_client_cert s.ssl_client_key

-- What a server needs, which no version before 1.1.0 satisfies.
abbrev pub serves_server : Openssl → Settings → Bool
serves_server o s =
    names s s.ssl_server_cert s.ssl_server_key
    && not o.old
    && o.server_ctx
    && loads o s s.ssl_server_cert s.ssl_server_key

abbrev pub all_init : (ℕ → ℕ) → ℕ → ℕ → Bool
all_init mutex i zero = true
all_init mutex i (suc left) = mutex i == 0 && all_init mutex (i + 1) left

abbrev pub serves_locks : Openssl → Bool
serves_locks o = not o.old || (o.lock_cs && o.lock_count && all_init o.mutex 0 o.num_locks)

abbrev pub is_usable : Openssl → Settings → Bool
is_usable o s =
    serves_locks o
    && (s.numbers.inform == 0 || serves_client o s)
    && (s.numbers.server == 0 || serves_server o s)

-- OpenSSL has no memory for the parameter of the CRL check, when the first context that is configured comes to it.
abbrev pub lacks_parameter : Openssl → Settings → Bool
lacks_parameter o s =
    not o.verify_param_new
    && serves_locks o
    && (if s.numbers.inform == 0
        then not (s.numbers.server == 0) && serves_server o s
        else serves_client o s)

-- A context that asks every peer for a certificate, checks it against the CA file, and shows the certificate that
-- is configured. It has the CRL if OpenSSL puts it into the store, and checks it if OpenSSL takes the parameter.
abbrev pub checked : Openssl → Settings → (once : Bool) (certificate key : Bytes) → Context
checked o s once certificate key = record {
  verify_peer = true;
  client_once = once;
  ca_file = some s.ssl_ca_file;
  certificate = some certificate;
  private_key = some key;
  crl = if o.store_add_crl then some s.ssl_crl_file else none;
  crl_check = if o.set1_param then true else false;
}

abbrev pub client_context : Openssl → Settings → Context
client_context o s = checked o s false s.ssl_client_cert s.ssl_client_key

abbrev pub server_context : Openssl → Settings → Context
server_context o s = checked o s true s.ssl_server_cert s.ssl_server_key

abbrev pub secured : Openssl → Settings → Tls
secured o s = record {
  initialized = true;
  client = if s.numbers.inform == 0 then none else some (client_context o s);
  server = if s.numbers.server == 0 then none else some (server_context o s);
  locks = if o.old then o.num_locks else 0;
}

init_locks_lem :
    (mutex : ℕ → ℕ) (i left : ℕ)
    → init_locks mutex i left ≡ (if all_init mutex i left then ret tt else die 1)
unfolding init_locks
init_locks_lem mutex i zero = refl
init_locks_lem mutex i (suc left) = elim (Bool-cases (mutex i == 0)) [
  | inl h ↦ rw h (init_locks_lem mutex (i + 1) left)
  | inr h ↦ rw h refl
]

initialize_locking_lem :
    (o : Openssl)
    → initialize_locking o
      ≡ (if serves_locks o then ret (if o.old then o.num_locks else 0) else die 1)
unfolding initialize_locking
initialize_locking_lem o = rw (init_locks_lem o.mutex 0 o.num_locks) (ground arith)

initialize_client_lem :
    (o : Openssl) (s : Settings) (t : Tls)
    → initialize_client o s t ≡ (
        if serves_client o s
        then (if o.verify_param_new
            then ret (record t { client = some (client_context o s) })
            else undefined)
        else die 1)
unfolding initialize_client client_verification specified add_crl_to_ssl_ctx load_crl
initialize_client_lem o s t = ground arith

initialize_server_lem :
    (o : Openssl) (s : Settings) (t : Tls)
    → t.server ≡ none
    → initialize_server o s t ≡ (
        if serves_server o s
        then (if o.verify_param_new
            then ret (record t { server = some (server_context o s) })
            else undefined)
        else die 1)
unfolding initialize_server server_verification specified add_crl_to_ssl_ctx load_crl
initialize_server_lem o s t h = ground (arith, h)

abbrev client_after : Openssl → Settings → Tls → Tls
client_after o s t = record t {
  client = if s.numbers.inform == 0 then t.client else some (client_context o s);
}

-- With the parameter.
client_phase :
    (o : Openssl) (s : Settings) (t : Tls)
    → o.verify_param_new ≡ true
    → (if s.numbers.inform == 0 then ret t else initialize_client o s t)
      ≡ (if s.numbers.inform == 0 || serves_client o s then ret (client_after o s t) else die 1)
client_phase o s t m = elim (Bool-cases (s.numbers.inform == 0)) [
  | inl h ↦ rw h refl
  | inr h ↦ rw h (initialize_client_lem o s t ∙ rw m refl)
]

server_phase :
    (o : Openssl) (s : Settings) (t : Tls)
    → o.verify_param_new ≡ true
    → t.server ≡ none
    → (if s.numbers.server == 0 then ret t else initialize_server o s t) ≡ (
        if s.numbers.server == 0 || serves_server o s
        then ret (record t {
          server = if s.numbers.server == 0 then none else some (server_context o s);
        })
        else die 1)
server_phase o s t m h = elim (Bool-cases (s.numbers.server == 0)) [
  | inl k ↦ rw k (λ i. ret (record t { server = h i }))
  | inr k ↦ rw k (initialize_server_lem o s t h ∙ rw m refl)
]

with_parameter :
    (o : Openssl) (s : Settings)
    → o.verify_param_new ≡ true
    → netssl_initialize o s fresh ≡ (if is_usable o s then ret (secured o s) else die 1)
unfolding netssl_initialize
with_parameter o s m = elim (Bool-cases (serves_locks o)) [
  | inr l ↦ rw (initialize_locking_lem o) (rw l refl)
  | inl l ↦ rw (initialize_locking_lem o) (
      rw l (
        rw (client_phase o s (record fresh { locks = if o.old then o.num_locks else 0 }) m)
          (elim (Bool-cases (s.numbers.inform == 0 || serves_client o s)) [
            | inr c ↦ rw c refl
            | inl c ↦ rw c (
                rw
                  (server_phase o s
                    (client_after o s (record fresh { locks = if o.old then o.num_locks else 0 })) m
                    refl)
                  (elim (Bool-cases (s.numbers.server == 0 || serves_server o s)) [
                    | inl v ↦ rw v refl
                    | inr v ↦ rw v refl
                  ]))
          ])))
]

-- How it ends without the parameter.
abbrev without : Openssl → Settings → Outcome Tls
without o s =
    if lacks_parameter o s then undefined else (if is_usable o s then ret (secured o s) else die 1)

without_parameter :
    (o : Openssl) (s : Settings)
    → o.verify_param_new ≡ false
    → netssl_initialize o s fresh ≡ without o s
unfolding netssl_initialize
without_parameter o s m = elim (Bool-cases (serves_locks o)) [
  | inr l ↦ rw (initialize_locking_lem o) (rw (l, m) refl)
  | inl l ↦ rw (initialize_locking_lem o) (
      rw (l, m)
        (elim (Bool-cases (s.numbers.inform == 0)) [
          | inr h ↦ rw h (
              rw
                (initialize_client_lem o s
                  (record fresh { locks = if o.old then o.num_locks else 0 }))
                (elim (Bool-cases (serves_client o s)) [
                  | inl c ↦ rw (c, m) refl
                  | inr c ↦ rw c refl
                ]))
          | inl h ↦ rw h (elim (Bool-cases (s.numbers.server == 0)) [
            | inl k ↦ rw k refl
            | inr k ↦ rw k (
                rw
                  (initialize_server_lem o s
                    (record fresh { locks = if o.old then o.num_locks else 0 }) refl)
                  (elim (Bool-cases (serves_server o s)) [
                    | inl v ↦ rw (v, m) refl
                    | inr v ↦ rw v refl
                  ]))
          ])
        ]))
]

-- From the statics as the program starts, `netssl_initialize` succeeds exactly when every part that is configured has
-- its files named and loaded and its context, the locks can be set up, no server is asked of a version before
-- 1.1.0, and OpenSSL has memory for the parameter of the CRL check. The code does not test for that memory: without
-- it the behaviour is undefined if the locks can be set up and the first part that is configured has all the rest.
-- In all other cases the program exits with
-- code 1. After the success each configured part has a context that demands a certificate of every peer, with the
-- configured CA file, certificate and key, and no other part has one. The CRL is in its store exactly if
-- `X509_STORE_add_crl` succeeds, and is checked exactly if `X509_STORE_set1_param` does: no failure of these
-- two stops the set up.
pub netssl_initialize-secured :
    (o : Openssl) (s : Settings)
    → netssl_initialize o s fresh ≡ (
        if lacks_parameter o s
        then undefined
        else (if is_usable o s then ret (secured o s) else die 1))
netssl_initialize-secured o s = elim (Bool-cases o.verify_param_new) [
  | inl m ↦ with_parameter o s m ∙ sym (granted (not_lacking m))
  | inr m ↦ without_parameter o s m
]
  where
    lacking : Bool → Bool
    lacking b =
        not b
        && serves_locks o
        && (if s.numbers.inform == 0
            then not (s.numbers.server == 0) && serves_server o s
            else serves_client o s)

    not_lacking : o.verify_param_new ≡ true → lacks_parameter o s ≡ false
    not_lacking m = ap (λ b. lacking b) m

    granted :
        lacks_parameter o s ≡ false
        → without o s ≡ (if is_usable o s then ret (secured o s) else die 1)
    granted h = rw h refl

pub disintegrated :
    (o : Openssl) (s : Settings)
    → netssl_disintegrate o s (secured o s) ≡ ret (record fresh { initialized = true })
unfolding netssl_disintegrate deinitialize_locking
disintegrated o s = ground arith

-- What `netssl_initialize` has set up, `netssl_disintegrate` takes down without a failed assertion: no context is
-- left and no lock. The flag that there was a set up stays, so that a second `netssl_initialize` fails its
-- first assertion.
pub netssl_disintegrate-secured :
    (o : Openssl) (s s' : Settings)
    → (netssl_disintegrate o s (secured o s) ≡ ret (record fresh { initialized = true }))
      × ((netssl_disintegrate o s (secured o s) >>= netssl_initialize o s') ≡ aborted)
unfolding netssl_initialize
netssl_disintegrate-secured o s s' = (disintegrated o s, rw (disintegrated o s) refl)
