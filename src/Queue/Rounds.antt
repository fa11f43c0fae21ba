-- ===== src/Queue/Rounds.antt =====
-- A round of `_client_queue_worker` of src/network/cli/clientqueue.c: it sends what the short account of it in
-- Queue.antt says, no assertion fails, and what it leaves open or allocated is counted.
use agentsmith.Base.{
  ℕ, zero, suc, ◌+◌, ◌-◌, ◌<◌, Bool, true, false, not, ◌&&◌, List, [], ◌∷◌, ◌≡◌, refl, sym, ◌∙◌,
  inl, inr, arith, if◌then◌else◌, Bool-cases, length, ltb,
}
use agentsmith.Base.Outcome.{ret}
use agentsmith.Base.Cstring.{Bytes}
use agentsmith.Records.{HostRecord}
use agentsmith.Tls.Handshake.{shook, closed, opened, netssl_client_cases}
use agentsmith.Queue.{Queue, RoundEnv, connects, send_all, worker_round}
use agentsmith.Queue.Append.{AllAddressed}
use agentsmith.Queue.Worker.{send_all_returns}
use agentsmith.Queue.Connection.{
  Locals, ConnectionEnv, open_socket, try_connect, close, disintegrate_queue, talk, connected_round,
}

-- The answers in short.
abbrev pub plain : ConnectionEnv → RoundEnv
plain e = record { socket = e.socket; connect = e.connect; handshake = shook e.handshake }

-- The sockets that the tries leave open: one for each that cannot be connected, but for the last try.
unfoldable pub leaks : ConnectionEnv → ℕ → ℕ → ℕ
leaks e tried zero = 0
leaks e tried (suc left) =
    let rest = leaks e (tried + 1) left in
    if e.socket (tried + 1) && e.connect (tried + 1)
    then 0
    else (if e.socket (tried + 1) && ltb 0 left then 1 else 0) + rest

-- What is left open behind a first try of which there is no socket.
unopened :
    (e : ConnectionEnv) (tried left : ℕ) (w : Locals)
    → (0 < left
        → (close (try_connect e (tried + 1) left (open_socket false w)).0).sockets
          ≡ w.sockets + leaks e (tried + 1) left)
    → (close (try_connect e (tried + 1) left (open_socket false w)).0).sockets
      ≡ w.sockets + (0 + leaks e (tried + 1) left)
unfolding try_connect leaks
unopened e tried zero w h = omega arith
unopened e tried (suc left) w h = omega (arith, h (omega arith))

-- The same of which there is a socket, but no connection.
left_open :
    (e : ConnectionEnv) (tried left : ℕ) (w : Locals)
    → (0 < left
        → (close (try_connect e (tried + 1) left (open_socket true w)).0).sockets
          ≡ (w.sockets + 1) + leaks e (tried + 1) left)
    → (close (try_connect e (tried + 1) left (open_socket true w)).0).sockets
      ≡ w.sockets + ((if ltb 0 left then 1 else 0) + leaks e (tried + 1) left)
unfolding try_connect leaks
left_open e tried zero w h = omega arith
left_open e tried (suc left) w h = ground (arith, h (omega arith))

-- What the tries leave.
pub record Tried (e : ConnectionEnv) (tried left : ℕ) (w : Locals) (x : Locals × Bool)
    : Type 0 where
  pub connected : x.1 ≡ connects (plain e) tried left
  pub session : x.0.session ≡ w.session
  pub entries : x.0.entries ≡ w.entries
  pub sockfd : x.1 ≡ true → x.0.sockfd ≡ true
  pub sockets : 0 < left → (close x.0).sockets ≡ w.sockets + leaks e tried left

pub try_connect-Tried :
    (e : ConnectionEnv) (tried left : ℕ) (w : Locals)
    → Tried e tried left w (try_connect e tried left w)
unfolding try_connect connects leaks
try_connect-Tried e tried zero w = record {
  connected = refl;
  session = refl;
  entries = refl;
  sockfd = λ h. cc;
  sockets = λ h. absurd (omega arith);
}
try_connect-Tried e tried (suc left) w =
    let k = try_connect-Tried e (tried + 1) left (open_socket (e.socket (tried + 1)) w) in
    elim (Bool-cases (e.socket (tried + 1))) [
      | inr s ↦ record {
        connected = rw s (rw s at k.connected);
        session = rw s (rw s at k.session);
        entries = rw s (rw s at k.entries);
        sockfd = rw s (rw s at k.sockfd);
        sockets = λ h. rw s (unopened e tried left w (rw s at k.sockets));
      }
      | inl s ↦ elim (Bool-cases (e.connect (tried + 1))) [
        | inl c ↦ record {
          connected = rw (s, c) refl;
          session = rw (s, c) refl;
          entries = rw (s, c) refl;
          sockfd = rw (s, c) (λ h. refl);
          sockets = λ h. rw (s, c) (omega arith);
        }
        | inr c ↦ record {
          connected = rw (s, c) (rw s at k.connected);
          session = rw (s, c) (rw s at k.session);
          entries = rw (s, c) (rw s at k.entries);
          sockfd = rw (s, c) (rw s at k.sockfd);
          sockets = λ h. rw (s, c) (left_open e tried left w (rw s at k.sockets));
        }
      ]
    ]

pub disintegrate_queue_lem :
    (rs : List HostRecord) (w : Locals)
    → disintegrate_queue rs w ≡ record w { entries = w.entries - length rs }
unfolding disintegrate_queue
disintegrate_queue_lem [] w = ground arith
disintegrate_queue_lem (r ∷ rs) w =
    disintegrate_queue_lem rs (record w { entries = w.entries - 1 }) ∙ ground arith

-- What a round leaves. After a connection whose handshake fails the entries are not freed.
pub record Balanced (e : ConnectionEnv) (tries : ℕ) (w w' : Locals) (q : Queue) : Type 0 where
  pub session : w'.session ≡ w.session
  pub sockets : w'.sockets ≡ w.sockets + leaks e 0 tries
  pub entries : w'.entries ≡ (
      if connects (plain e) 0 tries && not (shook e.handshake)
      then w.entries
      else w.entries - length q.head)

talk_lem :
    (e : ConnectionEnv) (n : ℕ) (w : Locals) (taken : List HostRecord) (sent : List Bytes)
    → e.context ≡ true
    → w.sockfd ≡ true
    → w.session ≡ closed n
    → send_all taken ≡ ret sent
    → talk e taken w ≡ (
        if shook e.handshake
        then ret (close (record w { session = closed n; entries = w.entries - length taken }), sent)
        else ret (close (record w { session = closed n }), []))
unfolding talk
talk_lem e n w taken sent x k s h =
    rw (x, k, s)
      (rw (netssl_client_cases e.handshake n) (elim (Bool-cases (shook e.handshake)) [
        | inl b ↦ rw b (
            rw (h, disintegrate_queue_lem taken (record w { session = opened (n + 1) }))
              (rw (back n, k) refl))
        | inr b ↦ rw b (rw k refl)
      ]))
  where
    back : (n : ℕ) → n + 1 - 1 ≡ n
    back n = omega arith

-- When the worker may try at least once, there is a context, both pointers are NULL before, and all records in the
-- queue have an address of more than two bytes, no assertion fails in a round. It sends what the short
-- account says and leaves the queue so. Both pointers are NULL again, and there are as
-- many objects of OpenSSL as before. Every socket
-- of a try that fails to connect, but for the last try, stays open. The entries are freed unless the handshake
-- fails behind a connection: then they are all lost.
pub connected_round-Balanced :
    (e : ConnectionEnv) (tries n : ℕ) (w : Locals) (q : Queue)
    → 0 < tries
    → e.context ≡ true
    → w.session ≡ closed n
    → AllAddressed q.head
    → (w' : Locals) × (sent : List Bytes) × (connected_round e tries w q
        ≡ ret (w', sent, record q { head = [] }))
      × (worker_round (plain e) tries q ≡ ret (sent, record q { head = [] }))
      × Balanced e tries w w' q
unfolding connected_round worker_round
connected_round-Balanced e tries n w q t x s a =
    let k = try_connect-Tried e 0 tries w in
    let w1 = (try_connect e 0 tries w).0 in
    let (sent, h) = send_all_returns q.head a in
    elim (Bool-cases (connects (plain e) 0 tries)) [
      | inr c ↦ (
        close (disintegrate_queue q.head w1),
        [],
        rw (k.connected ∙ c) refl,
        rw c refl,
        record {
          session = rw (disintegrate_queue_lem q.head w1) k.session;
          sockets = rw (disintegrate_queue_lem q.head w1) (k.sockets t);
          entries = rw c (rw (disintegrate_queue_lem q.head w1) (rw k.entries refl));
        },
      )
      | inl c ↦
          let talked =
            talk_lem e n w1 q.head sent x (k.sockfd (k.connected ∙ c)) (k.session ∙ s) h in
          elim (Bool-cases (shook e.handshake)) [
            | inl b ↦ (
              close (record w1 { session = closed n; entries = w1.entries - length q.head }),
              sent,
              rw (k.connected ∙ c) (rw talked (rw b refl)),
              rw (c, b, h) refl,
              record {
                session = sym s;
                sockets = k.sockets t;
                entries = rw (c, b) (rw k.entries refl);
              },
            )
            | inr b ↦ (
              close (record w1 { session = closed n }),
              [],
              rw (k.connected ∙ c) (rw talked (rw b refl)),
              rw (c, b) refl,
              record { session = sym s; sockets = k.sockets t; entries = rw (c, b) k.entries },
            )
          ]
    ]
