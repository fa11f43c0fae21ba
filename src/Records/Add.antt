-- ===== src/Records/Add.antt =====
-- The parts of src/records.c that run under the mutex, as operations on the map from addresses to
-- records.
use agentsmith.Base.{
  ℕ, ◌≤◌, true, false, Option, none, some, ◌≡◌, refl, sym, ◌∙◌, ◌⊎◌, inl, inr, arith, if◌then◌else◌,
  equal, Option-cases, length, take_of_length_le,
}
use agentsmith.Base.Outcome.{Outcome, ret, die, Retval, ok, err, Env}
use agentsmith.Base.Cstring.{Bytes, c_str, c_str-closed}
use agentsmith.Config.{Config}
use agentsmith.Records.{
  HostRecord, Vector, records_find, insert_record, add_ip_found, add_record_found, remove_found,
  overwrite, seen_again, merge_record, new_record,
}
use agentsmith.Records.Lookup.{
  key, view, IsValid, records_find-view, records_find-Hit, overwrite-IsValid, view-overwrite,
  remove-IsValid, view-remove, insert_record_cases,
}

-- The map changes at one address, where it becomes `x`.
abbrev pub Updates : Vector → Vector → Bytes → Option HostRecord → Type 0
Updates v u k x = (j : Bytes) → view u j ≡ (if equal k j then x else view v j)

abbrev pub SameView : Vector → Vector → Type 0
SameView v u = (j : Bytes) → view u j ≡ view v j

-- What a call leaves: a valid vector, and the update unless it reports an error and changes nothing.
abbrev pub Leaves : Vector → Bytes → Option HostRecord → Vector × Retval → Type 0
Leaves v k x (u, r) = IsValid u × (Updates v u k x ⊎ ((r ≡ err) × SameView v u))

-- The system grants everything that the call asks of it.
pub record IsServing (e : Env) : Type 0 where
  pub locks : e.lock ≡ 0
  pub unlocks : e.unlock ≡ 0
  pub mallocs : e.malloc ≡ true
  pub reallocs : e.realloc ≡ true

-- The record that `records_add_ip` leaves for an address, from the one that was there.
abbrev pub next_ip : Config → ℕ → Bytes → Option HostRecord → HostRecord
next_ip c now ipaddr (some r) = seen_again now r
next_ip c now ipaddr none = new_record c now ipaddr

-- The record that `records_add_record` leaves.
abbrev pub next_record : ℕ → HostRecord → Option HostRecord → HostRecord
next_record now hr (some r) = merge_record now r hr
next_record now hr none = hr

key-seen_again : (now : ℕ) (r : HostRecord) → key (seen_again now r) ≡ key r
unfolding seen_again
key-seen_again now r = ground arith

key-merge_record : (now : ℕ) (r hr : HostRecord) → key (merge_record now r hr) ≡ key hr
unfolding merge_record
key-merge_record now r hr = ground arith

pub key-new_record :
    (c : Config) (now : ℕ) (ipaddr : Bytes)
    → length (c_str ipaddr) ≤ 45
    → key (new_record c now ipaddr) ≡ c_str ipaddr
unfolding new_record
key-new_record c now ipaddr h = c_str-closed 45 ipaddr ∙ take_of_length_le 45 _ h

-- The body of an addition: the update, an error with nothing changed, or `exit(3)`.
abbrev pub BodyCases : Env → Vector → Bytes → HostRecord → Outcome (Vector × Retval) → Type 0
BodyCases e v k x m =
    ((u : Vector) × (m ≡ ret (u, ok)) × IsValid u × Updates v u k (some x))
    ⊎ ((u : Vector) × (m ≡ ret (u, err)) × IsValid u × SameView v u × (e.malloc ≡ false))
    ⊎ ((m ≡ die 3) × (e.realloc ≡ false))

insert-BodyCases :
    (e : Env) (v : Vector) (r : HostRecord) {k : Bytes}
    → IsValid v
    → key r ≡ k
    → view v k ≡ none
    → BodyCases e v k r (insert_record e v r)
insert-BodyCases e v r w a absent = elim (insert_record_cases e v r w (rw a absent)) [
  | inl (u, h, added) ↦ inl (u, h, added.valid, rw (← a) (added.views))
  | inr (inl (u, h, same, m)) ↦ inr (inl (u, h, same.valid, same.views, m))
  | inr (inr (h, m)) ↦ inr (inr (h, m))
]

pub add_ip-BodyCases :
    (c : Config) (e : Env) (v : Vector) (ipaddr : Bytes)
    → IsValid v
    → length (c_str ipaddr) ≤ 45
    → BodyCases e v
        (c_str ipaddr)
        (next_ip c e.now ipaddr (view v (c_str ipaddr)))
        (add_ip_found c e v ipaddr (records_find v ipaddr))
unfolding add_ip_found
add_ip-BodyCases c e v ipaddr w fits = elim (Option-cases (records_find v ipaddr)) [
  | inl h ↦
      let absent = sym (records_find-view v ipaddr w) ∙ rw (h) in
      rw (h, absent)
        (insert-BodyCases e v (new_record c e.now ipaddr) w (key-new_record c e.now ipaddr fits)
          absent)
  | inr ((pos, r), h) ↦
      let hit = records_find-Hit v ipaddr w h in
      let same = key-seen_again e.now r ∙ hit.addressed in
      rw (h, hit.viewed)
        (inl (
          overwrite v pos (some (seen_again e.now r)),
          refl,
          overwrite-IsValid v (seen_again e.now r) w hit same,
          λ j. view-overwrite v (seen_again e.now r) j w hit same,
        ))
]

pub add_record-BodyCases :
    (e : Env) (v : Vector) (hr : HostRecord)
    → IsValid v
    → BodyCases e v
        (key hr)
        (next_record e.now hr (view v (key hr)))
        (add_record_found e v hr (records_find v hr.ipaddr))
unfolding add_record_found
add_record-BodyCases e v hr w = elim (Option-cases (records_find v hr.ipaddr)) [
  | inl h ↦
      let absent = sym (records_find-view v hr.ipaddr w) ∙ rw (h) in
      rw (h, absent) (insert-BodyCases e v hr w refl absent)
  | inr ((pos, r), h) ↦
      let hit = records_find-Hit v hr.ipaddr w h in
      let same = key-merge_record e.now r hr in
      rw (h, hit.viewed)
        (inl (
          overwrite v pos (some (merge_record e.now r hr)),
          refl,
          overwrite-IsValid v (merge_record e.now r hr) w hit same,
          λ j. view-overwrite v (merge_record e.now r hr) j w hit same,
        ))
]

-- The body of a removal: the record was there and is gone, or there was none and nothing happens.
abbrev pub RemoveCases : Vector → Bytes → Outcome (Vector × Retval) → Type 0
RemoveCases v k m =
    ((u : Vector) × (r : HostRecord) × (m ≡ ret (u, ok))
      × IsValid u
      × Updates v u k none
      × (view v k ≡ some r))
    ⊎ ((m ≡ ret (v, err)) × (view v k ≡ none))

pub remove-RemoveCases :
    (v : Vector) (ipaddr : Bytes)
    → IsValid v
    → RemoveCases v (c_str ipaddr) (remove_found v (records_find v ipaddr))
unfolding remove_found
remove-RemoveCases v ipaddr w = elim (Option-cases (records_find v ipaddr)) [
  | inl h ↦ rw h (inr (refl, sym (records_find-view v ipaddr w) ∙ rw (h)))
  | inr ((pos, r), h) ↦
      let hit = records_find-Hit v ipaddr w h in
      rw h (
        inl (
          overwrite v pos none,
          r,
          refl,
          remove-IsValid v w hit,
          λ j. view-remove v j w hit,
          hit.viewed,
        ))
]
