-- ===== src/Server/Listening.antt =====
-- `_network_start_listening` of src/network/srv/server.c: the sockets that it uses.
use agentsmith.Base.{
  ℕ, zero, suc, ◌+◌, ◌≤◌, ◌<◌, true, ◌&&◌, List, [], ◌∷◌, ◌++◌, Option, none, some, ltb, ◌≡◌, refl,
  sym, ap, ◌∙◌, inl, inr, arith, if◌then◌else◌, Option-cases, length, length-append, append-nil,
  append_assoc,
}
use agentsmith.Base.Outcome.{ret, undefined}
use agentsmith.Settings.{AddrInfo}
use agentsmith.Server.{
  fd_setsize, Attempt, opened, use_fd, listen_chain, listen_all, network_start_listening,
}

abbrev pub opened_fd : Option ℕ → List ℕ
opened_fd none = []
opened_fd (some fd) = fd ∷ []

-- The sockets of n attempts from the i-th on that could be opened.
abbrev pub opened_fds : (ℕ → Attempt) → ℕ → ℕ → List ℕ
opened_fds attempts i zero = []
opened_fds attempts i (suc n) = opened_fd (opened (attempts i)) ++ opened_fds attempts (i + 1) n

abbrev pub total_length : List AddrInfo → ℕ
total_length [] = 0
total_length (chain ∷ chains) = length chain + total_length chains

-- The system gives no descriptor from FD_SETSIZE on.
abbrev pub AreSmall : (ℕ → Attempt) → Type 0
AreSmall attempts = (i fd : ℕ) → opened (attempts i) ≡ some fd → fd < fd_setsize

opened_fds-append :
    (attempts : ℕ → Attempt) (i m n : ℕ)
    → opened_fds attempts i m ++ opened_fds attempts (i + m) n ≡ opened_fds attempts i (m + n)
opened_fds-append attempts i zero n =
    let e : i + 0 ≡ i = omega arith in let f : 0 + n ≡ n = omega arith in rw (e, f) refl
opened_fds-append attempts i (suc m) n =
    let e : i + suc m ≡ i + 1 + m = omega arith in
    let f : suc m + n ≡ suc (m + n) = omega arith in
    rw (e, f)
      (append_assoc (opened_fd (opened (attempts i))) (opened_fds attempts (i + 1) m) _
        ∙ ap (λ x. opened_fd (opened (attempts i)) ++ x) (opened_fds-append attempts (i + 1) m n))

length-opened_fds : (attempts : ℕ → Attempt) (i n : ℕ) → length (opened_fds attempts i n) ≤ n
length-opened_fds attempts i zero = omega arith
length-opened_fds attempts i (suc n) = elim (Option-cases (opened (attempts i))) [
  | inl h ↦ rw h (omega (arith, length-opened_fds attempts (i + 1) n))
  | inr (fd, h) ↦ rw h (omega (arith, length-opened_fds attempts (i + 1) n))
]

use_fd_lem :
    (attempts : ℕ → Attempt) (i : ℕ) (fds : List ℕ)
    → AreSmall attempts
    → length fds < fd_setsize
    → use_fd fds (opened (attempts i)) ≡ ret (fds ++ opened_fd (opened (attempts i)))
unfolding use_fd
use_fd_lem attempts i fds small room = elim (Option-cases (opened (attempts i))) [
  | inl h ↦ rw h (ap ret (sym (append-nil fds)))
  | inr (fd, h) ↦ rw h (in_range fd (small i fd h))
]
  where
    in_range :
        (fd : ℕ)
        → fd < fd_setsize
        → (if ltb (length fds) fd_setsize && ltb fd fd_setsize
            then ret (fds ++ fd ∷ [])
            else undefined)
          ≡ ret (fds ++ fd ∷ [])
    in_range fd h = ground (arith)

listen_chain_lem :
    (attempts : ℕ → Attempt) (i : ℕ) (chain : AddrInfo) (fds : List ℕ)
    → AreSmall attempts
    → length fds + length chain ≤ fd_setsize
    → listen_chain attempts i chain fds ≡ ret (fds ++ opened_fds attempts i (length chain))
unfolding listen_chain
listen_chain_lem attempts i [] fds small room = ap ret (sym (append-nil fds))
listen_chain_lem attempts i (a ∷ chain) fds small room =
    let one = opened_fd (opened (attempts i)) in
    let size : length one ≤ 1 = one_at_most (opened (attempts i)) in
    rw (use_fd_lem attempts i fds small (omega arith)) (
      listen_chain_lem attempts (i + 1) chain (fds ++ one) small
        (omega (arith, length-append fds one))
      ∙ ap ret (append_assoc fds one (opened_fds attempts (i + 1) (length chain))))
  where
    one_at_most : (o : Option ℕ) → length (opened_fd o) ≤ 1
    one_at_most none = omega arith
    one_at_most (some fd) = omega arith

listen_all_lem :
    (attempts : ℕ → Attempt) (i : ℕ) (chains : List AddrInfo) (fds : List ℕ)
    → AreSmall attempts
    → length fds + total_length chains < fd_setsize
    → listen_all attempts i chains fds ≡ ret (fds ++ opened_fds attempts i (total_length chains))
unfolding listen_all
listen_all_lem attempts i [] fds small room = ap ret (sym (append-nil fds))
listen_all_lem attempts i (chain ∷ chains) fds small room =
    let some_fds = opened_fds attempts i (length chain) in
    let size = length-opened_fds attempts i (length chain) in
    rw
      (
        has_room (omega arith),
        listen_chain_lem attempts i chain fds small (omega arith),
        listen_all,
      )
      (listen_all_lem attempts (i + length chain) chains (fds ++ some_fds) small
          (omega (arith, length-append fds some_fds, size))
        ∙ ap ret (
            append_assoc fds some_fds (opened_fds attempts (i + length chain) (total_length chains))
            ∙ ap (λ x. fds ++ x)
                (opened_fds-append attempts i (length chain) (total_length chains))))
  where
    has_room : length fds < fd_setsize → ltb (length fds) fd_setsize ≡ true
    has_room h = ground arith

-- With less than FD_SETSIZE addresses in the configuration, and descriptors below FD_SETSIZE,
-- `_network_start_listening` returns exactly the sockets that could be opened, bound and listened on, in
-- the order of the addresses.
pub network_start_listening-opened_fds :
    (attempts : ℕ → Attempt) (listen : List AddrInfo)
    → AreSmall attempts
    → total_length listen < fd_setsize
    → network_start_listening attempts listen ≡ ret (opened_fds attempts 0 (total_length listen))
unfolding network_start_listening
network_start_listening-opened_fds attempts listen small h =
    listen_all_lem attempts 0 listen [] small (omega arith)
