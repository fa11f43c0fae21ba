-- ===== src/Worker/Kept.antt =====
-- Whatever a peer sends and the system answers, a command of src/network/srv/worker.c that returns leaves the
-- vector valid and the exclude list as it was.
use agentsmith.Base.{ℕ, ◌==◌, ◌≡◌, ◌∙◌, inl, inr, Bool-cases}
use agentsmith.Base.Outcome.{
  Retval, ok, err, IfReturns, bind-IfReturns, assert-IfReturns, ReturnsOrExits-IfReturns,
}
use agentsmith.Base.Words.{signed_le32}
use agentsmith.Base.Cstring.{c_str}
use agentsmith.Records.{HostRecord, records_add_record}
use agentsmith.Records.Lookup.{IsValid}
use agentsmith.Records.Operations.{records_add_record-Leaves}
use agentsmith.Exclude.Address.{contains}
use agentsmith.Exclude.Rules.{RuleTable, exclude_isexcluded}
use agentsmith.Exclude.Kept.{exclude_isexcluded_same}
use agentsmith.Worker.{
  Tables, Peer, from_peer, insert_received, insert_unless, add_received, do_command,
}

-- What a call leaves.
abbrev pub Kept : RuleTable → Tables → Type 0
Kept rules t = IsValid t.vector × (t.rules ≡ rules)

insert_received-Kept :
    (p : Peer) (rules : RuleTable) (t : Tables) (r : HostRecord)
    → Kept rules t
    → IfReturns (Kept rules) (insert_received p t r)
unfolding insert_received
insert_received-Kept p rules t r (w, k) =
    let r' = from_peer p.host r in
    assert-IfReturns (Kept rules) (signed_le32 r'.action_threshold r'.occurrences) _ (
      bind-IfReturns _ (Kept rules) (records_add_record p.records t.vector r') _
        (ReturnsOrExits-IfReturns _ (records_add_record p.records t.vector r')
          (records_add_record-Leaves p.records t.vector w r'))
        (λ (v, result) (w', _). (w', k)))

insert_unless-Kept :
    (p : Peer) (rules : RuleTable) (t : Tables) (r : HostRecord) (excluded : Retval)
    → Kept rules t
    → IfReturns (Kept rules) (insert_unless p t r excluded)
insert_unless-Kept p rules t r ok k = k
insert_unless-Kept p rules t r err k = insert_received-Kept p rules t r k

add_received-Kept :
    (p : Peer) (rules : RuleTable) (t : Tables) (r : HostRecord)
    → Kept rules t
    → IfReturns (Kept rules) (add_received p t r)
unfolding add_received
add_received-Kept p rules t r (w, k) = elim (Bool-cases (contains 0 r.ipaddr)) [
  | inr h ↦ rw (h, IfReturns) tt
  | inl h ↦ elim (Bool-cases (p.remote_authoritative == 0)) [
    | inr a ↦ rw (h, a, IfReturns) (insert_received-Kept p rules t r (w, k))
    | inl a ↦
        rw (h, a, IfReturns)
          (bind-IfReturns (λ (u, x). u ≡ t.rules) (Kept rules)
            (exclude_isexcluded p.exclude p.inet t.rules (c_str r.ipaddr)) _
            (exclude_isexcluded_same p.exclude p.inet t.rules (c_str r.ipaddr))
            (λ (u, x) same. insert_unless-Kept p rules (record t { rules = u }) r x (w, same ∙ k)))
  ]
]

pub do_command-Kept :
    (p : Peer) (rules : RuleTable) (t : Tables) (command : ℕ) (r : HostRecord) (n : ℕ)
    → Kept rules t
    → IfReturns (λ (t', more). Kept rules t') (do_command p t (command, r, n))
unfolding do_command
do_command-Kept p rules t command r n k = elim (Bool-cases (command == 0)) [
  | inl h ↦
      rw (h, IfReturns)
        (bind-IfReturns (Kept rules) _ (add_received p t r) _ (add_received-Kept p rules t r k)
          (λ t' k'. k'))
  | inr h ↦ elim (Bool-cases (command == 1)) [
    | inl a ↦ rw (h, a, IfReturns) k
    | inr a ↦ elim (Bool-cases (command == 2)) [
      | inl b ↦ rw (h, a, b, IfReturns) k
      | inr b ↦ rw (h, a, b, IfReturns) k
    ]
  ]
]
