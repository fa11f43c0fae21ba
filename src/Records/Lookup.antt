-- ===== src/Records/Lookup.antt =====
-- The vector of src/records.c as a map from addresses to records: at most one record for an address.
use agentsmith.Base.{
  ℕ, ◌<◌, false, Option, none, some, ◌≡◌, sym, ◌∙◌, ◌⊎◌, inl, inr, arith, get_elem?, if◌then◌else◌,
  equal, equal_iff, Bool-cases,
}
use agentsmith.Base.Outcome.{ret, die, ok, err, Env}
use agentsmith.Base.Cstring.{Bytes, c_str}
use agentsmith.Slots.{store}
use agentsmith.Slots.Find.{find_slot-find, find_slot-FoundAt, record_of}
use agentsmith.Slots.Unique
use agentsmith.Slots.Unique.{lookup, IsUnique}
use agentsmith.Slots.Layout.{IsLaidOut, Reserved, reserve_cases, store-IsLaidOut, put-IsLaidOut}
use agentsmith.Records.{HostRecord, Vector, records_find, overwrite, insert_record}

-- The address of a record.
abbrev pub key : HostRecord → Bytes
key r = c_str r.ipaddr

-- The record of an address.
abbrev pub view : Vector → Bytes → Option HostRecord
view v k = lookup key k v.slots

pub record IsValid (v : Vector) : Type 0 where
  pub laid_out : IsLaidOut v
  pub unique : IsUnique key v.slots

-- The search finds the record of the address.
pub records_find-view :
    (v : Vector) (ipaddr : Bytes)
    → IsValid v
    → record_of (records_find v ipaddr) ≡ view v (c_str ipaddr)
unfolding records_find
records_find-view v ipaddr w = find_slot-find _ v.slots 0 v.fill w.laid_out.empty

-- What a hit of the search tells.
pub record Hit (v : Vector) (k : Bytes) (pos : ℕ) (r : HostRecord) : Type 0 where
  pub at : get_elem? v.slots pos ≡ some (some r)
  pub below : pos < v.fill
  pub addressed : key r ≡ k
  pub viewed : view v k ≡ some r

pub records_find-Hit :
    (v : Vector) (ipaddr : Bytes) {pos : ℕ} {r : HostRecord}
    → IsValid v
    → records_find v ipaddr ≡ some (pos, r)
    → Hit v (c_str ipaddr) pos r
unfolding records_find
records_find-Hit v ipaddr {pos} {r} w h =
    let (k, e, b, g, t) = find_slot-FoundAt _ v.slots 0 v.fill h in
    let same : k ≡ pos = omega arith in
    record {
      at = rw same at g;
      below = omega arith;
      addressed = (equal_iff (key r) (c_str ipaddr)).0 t;
      viewed = sym (records_find-view v ipaddr w) ∙ rw (h, records_find);
    }

-- A record rewritten in place, its address kept.
pub overwrite-IsValid :
    (v : Vector) {k : Bytes} {pos : ℕ} {r : HostRecord} (a : HostRecord)
    → IsValid v
    → Hit v k pos r
    → key a ≡ k
    → IsValid (overwrite v pos (some a))
unfolding overwrite
overwrite-IsValid v {k} {pos} {r} a w h e = record {
  laid_out = put-IsLaidOut v pos (some a) w.laid_out h.below;
  unique = Unique.IsUnique-set-some key v.slots pos r a h.at (e ∙ sym h.addressed) w.unique;
}

pub view-overwrite :
    (v : Vector) {k : Bytes} {pos : ℕ} {r : HostRecord} (a : HostRecord) (j : Bytes)
    → IsValid v
    → Hit v k pos r
    → key a ≡ k
    → view (overwrite v pos (some a)) j ≡ (if equal k j then some a else view v j)
unfolding overwrite
view-overwrite v {k} {pos} {r} a j w h e =
    rw (← h.addressed)
      (Unique.lookup-set-some key j v.slots pos r a h.at (e ∙ sym h.addressed) w.unique)

-- A record removed.
pub remove-IsValid :
    (v : Vector) {k : Bytes} {pos : ℕ} {r : HostRecord}
    → IsValid v
    → Hit v k pos r
    → IsValid (overwrite v pos none)
unfolding overwrite
remove-IsValid v {k} {pos} {r} w h = record {
  laid_out = put-IsLaidOut v pos none w.laid_out h.below;
  unique = Unique.IsUnique-set-none key v.slots pos r h.at w.unique;
}

pub view-remove :
    (v : Vector) {k : Bytes} {pos : ℕ} {r : HostRecord} (j : Bytes)
    → IsValid v
    → Hit v k pos r
    → view (overwrite v pos none) j ≡ (if equal k j then none else view v j)
unfolding overwrite
view-remove v {k} {pos} {r} j w h =
    rw (← h.addressed) (Unique.lookup-set-none key j v.slots pos r h.at w.unique)

-- The same map, in a valid vector.
pub record Same (v u : Vector) : Type 0 where
  pub valid : IsValid u
  pub views : (j : Bytes) → view u j ≡ view v j

-- A new record for an address that has none.
pub record Added (v u : Vector) (r : HostRecord) : Type 0 where
  pub valid : IsValid u
  pub views : (j : Bytes) → view u j ≡ (if equal (key r) j then some r else view v j)

store-Added :
    (v u : Vector) (pos : ℕ) (r : HostRecord)
    → IsValid v
    → Reserved v u pos
    → view v (key r) ≡ none
    → Added v (store u pos r) r
unfolding store
store-Added v u pos r w res absent =
    let none_there : view u (key r) ≡ none = res.keeps.same_find _ ∙ absent in
    record {
      valid = record {
        laid_out = store-IsLaidOut u pos r res.keeps.laid_out res.in_range;
        unique =
            Unique.IsUnique-set_free key u.slots pos r res.free none_there
              (res.keeps.same_unique key w.unique);
      };
      views = λ j.
          Unique.lookup-set_free key j u.slots pos r res.free none_there
          ∙ rw (res.keeps.same_find (λ a. equal (key a) j));
    }

-- The record is inserted, or memory is missing: an error with the map unchanged, or `exit(3)`.
pub insert_record_cases :
    (e : Env) (v : Vector) (r : HostRecord)
    → IsValid v
    → view v (key r) ≡ none
    → ((u : Vector) × (insert_record e v r ≡ ret (u, ok)) × Added v u r)
      ⊎ ((u : Vector) × (insert_record e v r ≡ ret (u, err)) × Same v u × (e.malloc ≡ false))
      ⊎ ((insert_record e v r ≡ die 3) × (e.realloc ≡ false))
unfolding insert_record
insert_record_cases e v r w absent = elim (reserve_cases e.realloc v w.laid_out) [
  | inr (h, m) ↦ inr (inr (rw (h, insert_record), m))
  | inl (u, i, h, res) ↦ elim (Bool-cases e.malloc) [
    | inl m ↦ inl (store u i r, rw (h, m, insert_record), store-Added v u i r w res absent)
    | inr m ↦ inr (
        inl (
          u,
          rw (h, m, insert_record),
          record {
            valid = record {
              laid_out = res.keeps.laid_out;
              unique = res.keeps.same_unique key w.unique;
            };
            views = λ j. res.keeps.same_find _;
          },
          m,
        ))
  ]
]
