-- ===== src/Records.antt =====
-- src/records.c: the vector of host records, with `struct _hostrecord` of src/records.h.
-- Each function takes what the system answers during the call (`Env`).
pub mod Maintenance
pub mod Lookup
pub mod Add
pub mod Operations
pub mod Starting
pub mod Marking
pub mod Kept
pub mod Sweeping
pub mod Cutting
pub mod Shrinking
pub mod History
mod Tests
use agentsmith.Base.{ℕ, ◌-◌, Bool, ◌&&◌, not, [], ◌∷◌, Option, none, some, ◌==◌, set, if◌then◌else◌}
use agentsmith.Base.Outcome.{Outcome, ret, die, ◌>>=◌, ◌>>◌, assert, Retval, ok, err, Env, locked}
use agentsmith.Base.Words.{add32, sub64, signed_le64}
use agentsmith.Base.Cstring.{Bytes, strncpy, same_str}
use agentsmith.Config.{Config}
use agentsmith.Slots.{Table, find_slot, reserve, store, start}
use agentsmith.Slots.Find.{record_of}

-- IPADDR_SIZE
abbrev pub ipaddr_size : ℕ
ipaddr_size = 46

-- LOCALHOST
abbrev pub localhost : Bytes
localhost = b'l' ∷ b'o' ∷ b'c' ∷ b'a' ∷ b'l' ∷ b'h' ∷ b'o' ∷ b's' ∷ b't' ∷ []

-- The two arrays hold 46 bytes; the numbers are the bit patterns of int64_t and int32_t members.
pub record HostRecord : Type 0 where
  pub origin : Bytes
  pub ipaddr : Bytes
  pub firstseen : ℕ
  pub lastseen : ℕ
  pub purge_after : ℕ
  pub time_interval : ℕ
  pub occurrences : ℕ
  pub action_threshold : ℕ
  pub remove : ℕ
  pub processed : ℕ

abbrev pub Vector : Type 0
Vector = Table HostRecord

-- `strcmp(r->ipaddr, ipaddr) == 0`
abbrev pub is_for : Bytes → HostRecord → Bool
is_for ipaddr r = same_str r.ipaddr ipaddr

-- `_records_find`, with the position that it stores through `pos`.
unfoldable pub records_find : Vector → Bytes → Option (ℕ × HostRecord)
unfolding find_slot
records_find v ipaddr = find_slot (is_for ipaddr) v.slots 0 v.fill

-- The occurrence counts only within the configured time interval.
unfoldable pub bump : HostRecord → HostRecord
bump r =
    if signed_le64 (sub64 r.lastseen r.firstseen) r.time_interval
    then record r { occurrences = add32 r.occurrences 1 }
    else r

-- What `records_add_ip` does to a record that it finds.
unfoldable pub seen_again : ℕ → HostRecord → HostRecord
unfolding bump
seen_again now r = bump (record r { lastseen = now })

-- The record that `records_add_ip` fills in.
unfoldable pub new_record : Config → ℕ → Bytes → HostRecord
unfolding strncpy
new_record c now ipaddr = record {
  origin = set (strncpy ipaddr_size localhost) (ipaddr_size - 1) 0;
  ipaddr = set (strncpy ipaddr_size ipaddr) (ipaddr_size - 1) 0;
  firstseen = now;
  lastseen = 0;
  purge_after = c.purge_after;
  time_interval = c.time_interval;
  occurrences = 1;
  action_threshold = c.action_threshold;
  remove = 0;
  processed = 0;
}

-- The part that both functions share: reserve a slot, `malloc` a record into it, fill it in.
unfoldable pub insert_record : Env → Vector → HostRecord → Outcome (Vector × Retval)
unfolding reserve store
insert_record e v r = do
  (v', pos) ← reserve e.realloc v
  ret (if e.malloc then (store v' pos r, ok) else (v', err))

-- A record that stands at a position of the vector is written through its pointer.
unfoldable pub overwrite : Vector → ℕ → Option HostRecord → Vector
overwrite v pos x = record v { slots = set v.slots pos x }

-- `records_add_ip` under the mutex, on the result of its search.
unfoldable pub add_ip_found :
    Config → Env → Vector → Bytes → Option (ℕ × HostRecord) → Outcome (Vector × Retval)
unfolding overwrite seen_again new_record insert_record
add_ip_found c e v ipaddr (some (pos, r)) = ret (overwrite v pos (some (seen_again e.now r)), ok)
add_ip_found c e v ipaddr none = insert_record e v (new_record c e.now ipaddr)

unfoldable pub records_add_ip : Config → Env → Vector → Bytes → Outcome (Vector × Retval)
unfolding locked records_find add_ip_found
records_add_ip c e v ipaddr = do
  assert v.initialized
  locked e v (add_ip_found c e v ipaddr (records_find v ipaddr))

-- What `records_add_record` makes of the record that it finds and of the one it is given.
unfoldable pub merge_record : ℕ → HostRecord → HostRecord → HostRecord
unfolding bump
merge_record now r hr = bump (record hr {
  processed = r.processed;
  occurrences = add32 hr.occurrences r.occurrences;
  lastseen = now;
})

-- `records_add_record` under the mutex, on the result of its search.
unfoldable pub add_record_found :
    Env → Vector → HostRecord → Option (ℕ × HostRecord) → Outcome (Vector × Retval)
unfolding overwrite merge_record insert_record
add_record_found e v hr (some (pos, r)) = ret (overwrite v pos (some (merge_record e.now r hr)), ok)
add_record_found e v hr none = insert_record e v hr

-- `records_add_record`, for a record whose address holds a NUL byte, as its callers have to see to: `strcmp` reads
-- past the array otherwise. `add_received` of Worker.antt tells the two cases apart.
unfoldable pub records_add_record : Env → Vector → HostRecord → Outcome (Vector × Retval)
unfolding locked records_find add_record_found
records_add_record e v hr = do
  assert v.initialized
  locked e v (add_record_found e v hr (records_find v hr.ipaddr))

-- `records_remove` under the mutex, on the result of its search.
unfoldable pub remove_found : Vector → Option (ℕ × HostRecord) → Outcome (Vector × Retval)
unfolding overwrite
remove_found v (some (pos, r)) = ret (overwrite v pos none, ok)
remove_found v none = ret (v, err)

unfoldable pub records_remove : Env → Vector → Bytes → Outcome (Vector × Retval)
unfolding locked records_find remove_found
records_remove e v ipaddr = do
  assert v.initialized
  locked e v (remove_found v (records_find v ipaddr))

-- NULL on a lock failure, as on a miss.
unfoldable pub records_get : Env → Vector → Bytes → Outcome (Option HostRecord)
unfolding records_find
records_get e v ipaddr = do
  assert v.initialized
  ret (if e.lock == 0 && e.unlock == 0 then record_of (records_find v ipaddr) else none)

-- `records_init`; the argument says whether `calloc` finds memory, and the number is the result of
-- `pthread_mutex_init`.
unfoldable pub records_init : Bool → ℕ → Vector → Outcome Vector
unfolding start
records_init calloc mutex v = do
  assert (not v.initialized)
  if calloc && mutex == 0 then ret (start v) else die 3
