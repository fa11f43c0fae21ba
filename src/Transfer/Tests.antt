-- ===== src/Transfer/Tests.antt =====
-- Runs of `net_read` and `net_write` of src/network/netshared.c with interruptions and short transfers.
use agentsmith.Base.{List, [], ◌∷◌, some, ◌≡◌, refl, arith}
use agentsmith.Base.Cstring.{Bytes}
use agentsmith.Transfer.{Answer, moved, interrupted, done, net_read, net_write}
use agentsmith.Transfer.Complete.{Read, net_read-Read, net_write-done}

abbrev answers : List Answer
answers = moved 1 ∷ interrupted ∷ moved 0 ∷ interrupted ∷ moved 5 ∷ moved 0 ∷ []

abbrev incoming : Bytes
incoming = 1 ∷ 2 ∷ 3 ∷ 4 ∷ 5 ∷ 6 ∷ []

read_four : net_read answers incoming 4 [] ≡ some (done (1 ∷ 2 ∷ 3 ∷ 4 ∷ []) (5 ∷ 6 ∷ []))
unfolding net_read
read_four = refl

net_read-Read_example : Read incoming [] 4 (net_read answers incoming 4 [])
net_read-Read_example = net_read-Read answers incoming 4 [] (λ f. f) (omega arith)

net_write-done_example :
    net_write answers (7 ∷ 8 ∷ 9 ∷ []) (6 ∷ []) ≡ some (done (6 ∷ 7 ∷ 8 ∷ 9 ∷ []) [])
net_write-done_example = net_write-done answers (7 ∷ 8 ∷ 9 ∷ []) (6 ∷ []) (λ f. f) (omega arith)
