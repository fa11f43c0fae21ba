-- ===== src/Worker/Serving.antt =====
-- The loop of src/network/srv/worker.c over the commands of a sender: every record is handled once, in order,
-- and each changes the vector at its own address.
use agentsmith.Base.{
  true, List, [], ◌∷◌, Option, some, map, ◌==◌, ◌≡◌, ◌≢◌, refl, ap, ◌∙◌, ◌⊎◌, inl, inr, arith,
  if◌then◌else◌, equal, equal_iff, Bool-cases, length,
}
use agentsmith.Base.Outcome.{Outcome, ret, ◌>>=◌, err, bind_same, bind_assoc}
use agentsmith.Base.Words.{signed_le32}
use agentsmith.Base.Cstring.{Bytes, c_str}
use agentsmith.Records.{HostRecord, Vector}
use agentsmith.Records.Lookup.{key, view, IsValid}
use agentsmith.Records.Add.{IsServing, next_record}
use agentsmith.Records.Operations.{records_add_record_served}
use agentsmith.Exclude.Address.{contains}
use agentsmith.Exclude.Rules.{RuleTable, exclude_isexcluded}
use agentsmith.Wire.{remote_command_size, net_buff_to_command}
use agentsmith.Queue.Worker.{received, announced, AllCommands}
use agentsmith.Worker.{
  Tables, Peer, from_peer, insert_received, insert_unless, add_received, do_command, serve,
}

-- The records themselves are handled, one after the other.
abbrev pub add_each : Peer → Tables → List HostRecord → Outcome Tables
add_each p t [] = ret t
add_each p t (r ∷ rs) = do t' ← add_received p t r; add_each p t' rs

-- From blocks that are read as ADD commands for some records, the loop handles these records.
pub serve-add_each :
    (p : Peer) (blocks : List Bytes) (rs : List HostRecord) (t : Tables)
    → AllCommands blocks
    → received blocks ≡ map announced rs
    → serve p t (map some blocks) ≡ add_each p t rs
unfolding serve do_command
serve-add_each p [] [] t w h = refl
serve-add_each p [] (r ∷ rs) t w h = cc
serve-add_each p (b ∷ blocks) [] t w h = cc
serve-add_each p (b ∷ blocks) (r ∷ rs) t w h =
    let first : net_buff_to_command b ≡ announced r = cc in
    let others : received blocks ≡ map announced rs = cc in
    rw (size, first)
      (bind_assoc (add_received p t r) _ _
        ∙ bind_same (add_received p t r) _ _ (λ t'. serve-add_each p blocks rs t' w.1 others))
  where
    size : (length b == remote_command_size) ≡ true
    size = rw (w.0) refl

-- The exclude list lets the address pass, or is not asked.
abbrev pub IsWelcome : Peer → RuleTable → HostRecord → Type 0
IsWelcome p rules r =
    (p.remote_authoritative ≢ 0)
    ⊎ (exclude_isexcluded p.exclude p.inet rules (c_str r.ipaddr) ≡ ret (rules, err))

-- What a record needs to be inserted: a closed address that may pass, and the occurrences for an action.
pub record IsAcceptable (p : Peer) (rules : RuleTable) (r : HostRecord) : Type 0 where
  pub closed : contains 0 r.ipaddr ≡ true
  pub due : signed_le32 r.action_threshold r.occurrences ≡ true
  pub welcome : IsWelcome p rules r

abbrev pub AllAcceptable : Peer → RuleTable → List HostRecord → Type 0
AllAcceptable p rules [] = Unit
AllAcceptable p rules (r ∷ rs) = IsAcceptable p rules r × AllAcceptable p rules rs

-- What the records make of the record at an address.
abbrev pub merged : Peer → List HostRecord → Bytes → Option HostRecord → Option HostRecord
merged p [] j o = o
merged p (r ∷ rs) j o =
    merged p rs j
      (if equal (key r) j then some (next_record p.records.now (from_peer p.host r) o) else o)

insert_received_lem :
    (p : Peer) (t : Tables) (r : HostRecord)
    → IsServing p.records
    → IsValid t.vector
    → signed_le32 r.action_threshold r.occurrences ≡ true
    → (v : Vector) × (insert_received p t r ≡ ret (record t { vector = v }))
      × IsValid v
      × ((j : Bytes) → view v j ≡ merged p (r ∷ []) j (view t.vector j))
unfolding insert_received from_peer
insert_received_lem p t r g w due =
    let (v, h, w', up) = records_add_record_served p.records t.vector g w (from_peer p.host r) in
    (v, rw due (rw h refl), w', λ j. up j ∙ at j)
  where
    at :
        (j : Bytes)
        → (if equal (key r) j
            then some (next_record p.records.now (from_peer p.host r) (view t.vector (key r)))
            else view t.vector j)
          ≡ merged p (r ∷ []) j (view t.vector j)
    at j = elim (Bool-cases (equal (key r) j)) [
      | inl e ↦ rw (e, (equal_iff (key r) j).0 e) refl
      | inr e ↦ rw e refl
    ]

-- The records are inserted: the vector stays valid and every address has what the records make of it.
pub record Inserted (p : Peer) (t : Tables) (rs : List HostRecord) (m : Outcome Tables)
    : Type 0 where
  pub after : Tables
  pub returns : m ≡ ret after
  pub valid : IsValid after.vector
  pub same_rules : after.rules ≡ t.rules
  pub views : (j : Bytes) → view after.vector j ≡ merged p rs j (view t.vector j)

add_received-Inserted :
    (p : Peer) (t : Tables) (r : HostRecord)
    → IsServing p.records
    → IsValid t.vector
    → IsAcceptable p t.rules r
    → Inserted p t (r ∷ []) (add_received p t r)
unfolding add_received
add_received-Inserted p t r g w a =
    let (v, h, w', up) = insert_received_lem p t r g w a.due in
    record {
      after = record t { vector = v };
      returns = rw (a.closed) (entered a.welcome ∙ h);
      valid = w';
      same_rules = refl;
      views = up;
    }
  where
    passed : Outcome Tables
    passed = do
      (rules, excluded) ← exclude_isexcluded p.exclude p.inet t.rules (c_str r.ipaddr)
      insert_unless p (record t { rules = rules }) r excluded

    entered :
        IsWelcome p t.rules r
        → (if p.remote_authoritative == 0 then passed else insert_received p t r)
          ≡ insert_received p t r
    entered (inl n) = ground arith
    entered (inr h) = elim (Bool-cases (p.remote_authoritative == 0)) [
      | inl e ↦ rw e (rw h refl)
      | inr e ↦ rw e refl
    ]

pub add_each-Inserted :
    (p : Peer) (t : Tables) (rs : List HostRecord)
    → IsServing p.records
    → IsValid t.vector
    → AllAcceptable p t.rules rs
    → Inserted p t rs (add_each p t rs)
add_each-Inserted p t [] g w a = record {
  after = t;
  returns = refl;
  valid = w;
  same_rules = refl;
  views = λ j. refl;
}
add_each-Inserted p t (r ∷ rs) g w a =
    let f = add_received-Inserted p t r g w a.0 in
    let g' = add_each-Inserted p f.after rs g f.valid (rw f.same_rules a.1) in
    record {
      after = g'.after;
      returns = rw f.returns g'.returns;
      valid = g'.valid;
      same_rules = g'.same_rules ∙ f.same_rules;
      views = λ j. g'.views j ∙ ap (merged p rs j) (f.views j);
    }
