-- ===== src/Transfer/Complete.antt =====
-- The loops of `net_read` and `net_write` of src/network/netshared.c end, and lose no byte.
use agentsmith.Base.{
  ℕ, zero, suc, ◌+◌, ◌-◌, ◌≤◌, min, List, [], ◌∷◌, ◌++◌, Option, some, take, drop, length, ◌≡◌,
  refl, sym, ap, ◌∙◌, arith, append-nil, append_assoc, length-append, length-take, length-drop,
  take-append-drop,
}
use agentsmith.Base.Cstring.{Bytes}
use agentsmith.Transfer.{Answer, moved, interrupted, failed, Transfer, done, net_read, net_write}

-- Some call fails.
abbrev pub IsFailing : List Answer → Type 0
IsFailing [] = ⊥
IsFailing (failed errno ∷ answers) = Unit
IsFailing (interrupted ∷ answers) = IsFailing answers
IsFailing (moved k ∷ answers) = IsFailing answers

-- How many of the calls move bytes.
abbrev pub moves : List Answer → ℕ
moves [] = 0
moves (failed errno ∷ answers) = moves answers
moves (interrupted ∷ answers) = moves answers
moves (moved k ∷ answers) = suc (moves answers)

-- The buffer has gained the first bytes of the stream, as many as were asked for or are there.
pub record Read (stream buf : Bytes) (nleft : ℕ) (r : Option Transfer) : Type 0 where
  pub bytes : Bytes
  pub rest : Bytes
  pub returns : r ≡ some (done (buf ++ bytes) rest)
  pub in_order : bytes ++ rest ≡ stream
  pub complete : length bytes ≡ min nleft (length stream)

Read-more :
    (chunk stream stream' buf : Bytes) (nleft nleft' : ℕ) (r : Option Transfer)
    → chunk ++ stream' ≡ stream
    → nleft' + length chunk ≡ nleft
    → Read stream' (buf ++ chunk) nleft' r
    → Read stream buf nleft r
Read-more chunk stream stream' buf nleft nleft' r h k d = record {
  bytes = chunk ++ d.bytes;
  rest = d.rest;
  returns = d.returns ∙ ap (λ b. some (done b d.rest)) (append_assoc buf chunk d.bytes);
  in_order = append_assoc chunk d.bytes d.rest ∙ ap (λ s. chunk ++ s) d.in_order ∙ h;
  complete =
      omega
        (arith, d.complete, length-append chunk d.bytes, ap length h, length-append chunk stream');
}

-- When no call of `read` fails and as many calls move bytes as are asked for, `net_read` returns: the
-- buffer has gained exactly the first bytes of the stream, in their order, all that were asked for or
-- all that there are, however the calls cut them and however often they are interrupted.
pub net_read-Read :
    (answers : List Answer) (stream : Bytes) (nleft : ℕ) (buf : Bytes)
    → ¬ IsFailing answers
    → nleft ≤ moves answers
    → Read stream buf nleft (net_read answers stream nleft buf)
unfolding net_read
net_read-Read answers stream zero buf safe enough = record {
  bytes = [];
  rest = stream;
  returns = ap (λ b. some (done b stream)) (sym (append-nil buf));
  in_order = refl;
  complete = omega arith;
}
net_read-Read [] stream (suc nleft) buf safe enough = absurd (omega arith)
net_read-Read (interrupted ∷ answers) stream (suc nleft) buf safe enough =
    net_read-Read answers stream (suc nleft) buf safe enough
net_read-Read (failed errno ∷ answers) stream (suc nleft) buf safe enough = absurd (safe tt)
net_read-Read (moved k ∷ answers) [] (suc nleft) buf safe enough = record {
  bytes = [];
  rest = [];
  returns = ap (λ b. some (done b [])) (sym (append-nil buf));
  in_order = refl;
  complete = omega arith;
}
net_read-Read (moved k ∷ answers) (b ∷ stream) (suc nleft) buf safe enough =
    let n = min (suc k) (suc nleft) in
    let size = length-take n (b ∷ stream) in
    Read-more (take n (b ∷ stream)) (b ∷ stream) (drop n (b ∷ stream)) buf (suc nleft)
      (suc nleft - length (take n (b ∷ stream))) _ (take-append-drop n (b ∷ stream))
      (omega (arith, size))
      (net_read-Read answers (drop n (b ∷ stream)) (suc nleft - length (take n (b ∷ stream)))
        (buf ++ take n (b ∷ stream)) safe (omega (arith, size)))

-- When no call of `write` fails and as many calls move bytes as there are bytes to write, `net_write`
-- returns, and the bytes are on the wire behind what was there, all of them and in their order.
pub net_write-done :
    (answers : List Answer) (buf sent : Bytes)
    → ¬ IsFailing answers
    → length buf ≤ moves answers
    → net_write answers buf sent ≡ some (done (sent ++ buf) [])
unfolding net_write
net_write-done answers [] sent safe enough = ap (λ b. some (done b [])) (sym (append-nil sent))
net_write-done [] (b ∷ buf) sent safe enough = absurd (omega arith)
net_write-done (interrupted ∷ answers) (b ∷ buf) sent safe enough =
    net_write-done answers (b ∷ buf) sent safe enough
net_write-done (failed errno ∷ answers) (b ∷ buf) sent safe enough = absurd (safe tt)
net_write-done (moved k ∷ answers) (b ∷ buf) sent safe enough =
    net_write-done answers (drop (suc k) (b ∷ buf)) (sent ++ take (suc k) (b ∷ buf)) safe
      (omega (arith, length-drop (suc k) (b ∷ buf)))
    ∙ ap (λ s. some (done s []))
        (append_assoc sent (take (suc k) (b ∷ buf)) (drop (suc k) (b ∷ buf))
          ∙ ap (λ s. sent ++ s) (take-append-drop (suc k) (b ∷ buf)))
