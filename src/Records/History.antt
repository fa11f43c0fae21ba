-- ===== src/Records/History.antt =====
-- The vector of src/records.c through a history of calls: it is a map from addresses to records.
use agentsmith.Base.{
  ◌≤◌, List, [], ◌∷◌, Option, none, some, ◌≡◌, refl, sym, ap, ◌∙◌, inl, inr, if◌then◌else◌, equal,
  equal_iff, Bool-cases, length,
}
use agentsmith.Base.Outcome.{Outcome, ret, ◌>>=◌, Env}
use agentsmith.Base.Cstring.{Bytes, c_str}
use agentsmith.Config.{Config}
use agentsmith.Records.{HostRecord, Vector, records_add_ip, records_add_record, records_remove}
use agentsmith.Records.Lookup.{key, view, IsValid}
use agentsmith.Records.Add.{IsServing, Updates, next_ip, next_record}
use agentsmith.Records.Operations.{
  records_add_ip_served, records_add_record_served, records_remove_served,
}
use agentsmith.Records.Maintenance.{records_maintenance}
use agentsmith.Records.Sweeping.{kept}
use agentsmith.Records.Shrinking.{records_maintenance_served}

-- A call of a client, with what the system answers; the maintenance runs without a callback.
pub data Call : Type 0 where
  add_ip : Env → Bytes → Call
  add_record : Env → HostRecord → Call
  remove : Env → Bytes → Call
  maintain : Env → Call

-- The calls, one after the other; their results are not looked at.
unfoldable pub run : Config → Vector → List Call → Outcome Vector
unfolding records_add_ip records_add_record records_remove records_maintenance
run c v [] = ret v
run c v (add_ip e ipaddr ∷ calls) = do (u, r) ← records_add_ip c e v ipaddr; run c u calls
run c v (add_record e hr ∷ calls) = do (u, r) ← records_add_record e v hr; run c u calls
run c v (remove e ipaddr ∷ calls) = do (u, r) ← records_remove e v ipaddr; run c u calls
run c v (maintain e ∷ calls) = do
  (s, u, r) ← records_maintenance {S = Unit {0}} none e tt v
  run c u calls

-- The abstract view: what an address has.
abbrev pub HostMap : Type 0
HostMap = Bytes → Option HostRecord

abbrev pub put : Bytes → Option HostRecord → HostMap → HostMap
put k x m j = if equal k j then x else m j

-- What a call does to the map.
abbrev pub step : Config → HostMap → Call → HostMap
step c m (add_ip e ipaddr) = put (c_str ipaddr) (some (next_ip c e.now ipaddr (m (c_str ipaddr)))) m
step c m (add_record e hr) = put (key hr) (some (next_record e.now hr (m (key hr)))) m
step c m (remove e ipaddr) = put (c_str ipaddr) none m
step c m (maintain e) = λ j. kept (m j)

abbrev pub steps : Config → HostMap → List Call → HostMap
steps c m [] = m
steps c m (call ∷ calls) = steps c (step c m call) calls

-- The system grants everything, and an address fits a record.
abbrev pub IsGranted : Call → Type 0
IsGranted (add_ip e ipaddr) = IsServing e × (length (c_str ipaddr) ≤ 45)
IsGranted (add_record e hr) = IsServing e
IsGranted (remove e ipaddr) = IsServing e
IsGranted (maintain e) = IsServing e

abbrev pub AllGranted : List Call → Type 0
AllGranted [] = Unit
AllGranted (call ∷ calls) = IsGranted call × AllGranted calls

-- A valid vector that holds the map.
pub record Refines (m : HostMap) (v : Vector) : Type 0 where
  pub valid : IsValid v
  pub holds : (j : Bytes) → view v j ≡ m j

put_absent : (k : Bytes) (m : HostMap) → m k ≡ none → (j : Bytes) → m j ≡ put k none m j
put_absent k m h j = elim (Bool-cases (equal k j)) [
  | inl e ↦ rw (e, ← (equal_iff k j).0 e) h
  | inr e ↦ rw e refl
]

pub updated :
    {m : HostMap} {v u : Vector} (k : Bytes) (f : Option HostRecord → Option HostRecord)
    → Refines m v
    → IsValid u
    → Updates v u k (f (view v k))
    → Refines (put k (f (m k)) m) u
updated k f r w up = record { valid = w; holds = λ j. up j ∙ rw (r.holds k, r.holds j) refl }

-- The vector and the map, after the calls.
abbrev pub Refined : Config → Vector → HostMap → List Call → Type 0
Refined c v m calls = (u : Vector) × (run c v calls ≡ ret u) × Refines (steps c m calls) u

nothing : Unit {0} → HostRecord → Unit {0}
nothing u r = tt

-- A valid vector that holds a map, and any calls that the system grants, with addresses of at most 45 bytes:
-- they all return, and the vector is valid and holds the map that has gone through the same calls, one
-- after the other. Slots, chunks and positions do not show.
pub run-Refines :
    (c : Config) (calls : List Call) (v : Vector) (m : HostMap)
    → AllGranted calls
    → Refines m v
    → Refined c v m calls
unfolding run
run-Refines c [] v m g r = (v, refl, r)
run-Refines c (add_ip e ipaddr ∷ calls) v m ((g, fits), gs) r =
    let (u, h, w, up) = records_add_ip_served e v g r.valid c ipaddr fits in
    rw h (
      run-Refines c calls u _ gs
        (updated (c_str ipaddr) (λ x. some (next_ip c e.now ipaddr x)) r w up))
run-Refines c (add_record e hr ∷ calls) v m (g, gs) r =
    let (u, h, w, up) = records_add_record_served e v g r.valid hr in
    rw h (run-Refines c calls u _ gs (updated (key hr) (λ x. some (next_record e.now hr x)) r w up))
run-Refines c (remove e ipaddr ∷ calls) v m (g, gs) r =
    elim (records_remove_served e v g r.valid ipaddr) [
      | inl (u, old, h, w, up, _) ↦
          rw h (run-Refines c calls u _ gs (updated (c_str ipaddr) (λ x. none) r w up))
      | inr (h, absent) ↦ rw h (
          run-Refines c calls v _ gs (record {
            valid = r.valid;
            holds = λ j.
                r.holds j ∙ put_absent (c_str ipaddr) m (sym (r.holds (c_str ipaddr)) ∙ absent) j;
          }))
    ]
run-Refines c (maintain e ∷ calls) v m (g, gs) r =
    let (u, h, d) = records_maintenance_served none nothing (λ s r. refl) e tt v r.valid g in
    rw h (
      run-Refines c calls u _ gs
        (record { valid = d.valid; holds = λ j. d.views j ∙ ap kept (r.holds j) }))
