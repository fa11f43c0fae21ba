-- ===== src/Watch/Matching.antt =====
-- `regex_do` of src/regex.c: an address in the log is counted unless the exclude list covers it.
use agentsmith.Base.{
  ℕ, ◌+◌, ◌-◌, ◌≤◌, Bool, true, some, ◌==◌, ◌≡◌, ◌≢◌, refl, ◌∙◌, ◌⊎◌, inl, inr, arith,
  if◌then◌else◌, equal, Bool-cases, take, drop, length,
}
use agentsmith.Base.Outcome.{ret}
use agentsmith.Base.Cstring.{Bytes, c_str}
use agentsmith.Config.{Config}
use agentsmith.Slots.Layout.{IsLaidOut}
use agentsmith.Records.Lookup.{view, IsValid}
use agentsmith.Records.Add.{IsServing, next_ip}
use agentsmith.Records.Operations.{records_add_ip_served}
use agentsmith.Exclude.Address.{Parsed, width, exclude_parse_ip}
use agentsmith.Exclude.Rules.{Inet, to_address, exclude_isexcluded}
use agentsmith.Exclude.Membership.{text_covered, retval, exclude_isexcluded-answer}
use agentsmith.Watch.{
  Pcre, regex_prepare, Store, LineEnv, add_unless_excluded, copy_match, do_match, prepare_once,
  regex_do,
}

-- Whether the exclude list covers the address.
abbrev pub is_covered : Inet → Store → Parsed → Bool
is_covered net s p = text_covered (to_address net p.af p.ip) s.rules.slots

-- What is left after an address has been seen.
pub record Seen (c : Config) (net : Inet) (e : LineEnv) (s t : Store) (text : Bytes) (p : Parsed)
    : Type 0 where
  pub valid : IsValid t.vector
  pub same_rules : t.rules ≡ s.rules
  pub compiled : t.compiled ≡ true
  pub views :
      (j : Bytes)
      → view t.vector j ≡ (
          if is_covered net s p
          then view s.vector j
          else if equal (c_str text) j
          then some (next_ip c e.records.now text (view s.vector (c_str text)))
          else view s.vector j)

-- The text is one whole address, and the system grants everything.
pub record IsAddress (net : Inet) (e : LineEnv) (text : Bytes) (p : Parsed) : Type 0 where
  pub locks : e.exclude.lock ≡ 0
  pub unlocks : e.exclude.unlock ≡ 0
  pub parses : exclude_parse_ip e.exclude.copy text ≡ ret (some p)
  pub whole : p.prefix ≡ width p.af
  pub short : length (c_str text) ≤ 45
  pub serves : IsServing e.records

excluded_lem :
    (net : Inet) (e : LineEnv) (s : Store) (text : Bytes) (p : Parsed)
    → IsLaidOut s.rules
    → IsAddress net e text p
    → exclude_isexcluded e.exclude net s.rules text ≡ ret (s.rules, retval (is_covered net s p))
excluded_lem net e s text p l a =
    exclude_isexcluded-answer e.exclude net s.rules text {p = some p} l a.locks a.unlocks a.parses
    ∙ rw (a.whole, same (width p.af)) refl
  where
    same : (n : ℕ) → (n == n) ≡ true
    same n = ground arith

add_unless_excluded-Seen :
    (c : Config) (net : Inet) (e : LineEnv) (s : Store) (text : Bytes) (p : Parsed)
    → IsValid s.vector
    → IsLaidOut s.rules
    → s.compiled ≡ true
    → IsAddress net e text p
    → (t : Store) × (add_unless_excluded c net e s text ≡ ret t) × Seen c net e s t text p
unfolding add_unless_excluded
add_unless_excluded-Seen c net e s text p w l k a = elim (Bool-cases (is_covered net s p)) [
  | inl h ↦ (
    s,
    rw (excluded_lem net e s text p l a, h) refl,
    record { valid = w; same_rules = refl; compiled = k; views = λ j. rw h refl },
  )
  | inr h ↦
      let (u, r, w', up) = records_add_ip_served e.records s.vector a.serves w c text a.short in
      (
        record s { vector = u },
        rw (excluded_lem net e s text p l a, h) (rw r refl),
        record { valid = w'; same_rules = refl; compiled = k; views = λ j. rw h (up j) },
      )
]

-- The expression is compiled, or compiles now and has one capture.
abbrev pub IsReady : Pcre → Store → Type 0
IsReady p s =
    (s.compiled ≡ true)
    ⊎ ((p.compiles ≡ true) × (p.studies ≡ true) × (p.fullinfo ≡ 0) × (p.capturecount ≡ 1))

prepare_once_lem : (p : Pcre) (s : Store) → IsReady p s → prepare_once p s.compiled ≡ ret tt
unfolding prepare_once regex_prepare
prepare_once_lem p s (inl h) = rw h refl
prepare_once_lem p s (inr (h, k, l, m)) = elim (Bool-cases s.compiled) [
  | inl d ↦ rw d refl
  | inr d ↦ rw (d, h, k, l, m) refl
]

copied :
    (buff : Bytes) (from until : ℕ)
    → from ≤ until
    → until ≤ from + 1023
    → copy_match buff from until ≡ ret (take (until - from) (drop from buff))
unfolding copy_match
copied buff from until h k = ground arith

-- When a line matches, its capture is one whole address of at most 45 bytes, and the system grants
-- everything, `regex_do` succeeds. If the exclude list covers the address, no record changes. If it
-- does not, the address has a fresh record or its old one seen again, and no other changes. The
-- vector stays valid and the exclude list as it is.
pub regex_do-Seen :
    (r : Pcre) (c : Config) (net : Inet) (e : LineEnv) (s : Store) (buff : Bytes) (from until : ℕ)
    (p : Parsed)
    → IsReady r s
    → IsValid s.vector
    → IsLaidOut s.rules
    → r.exec (c_str buff) ≡ (2, from, until)
    → from ≤ until
    → until ≤ from + 1023
    → IsAddress net e (take (until - from) (drop from (c_str buff))) p
    → (t : Store) × (regex_do r c net e s buff ≡ ret t)
      × Seen c net e s t (take (until - from) (drop from (c_str buff))) p
unfolding regex_do do_match
regex_do-Seen r c net e s buff from until p ready w l m lo hi a =
    let text = take (until - from) (drop from (c_str buff)) in
    let (t, h, seen) =
      add_unless_excluded-Seen c net e (record s { compiled = true }) text p w l refl a in
    (
      t,
      rw (prepare_once_lem r s ready) (rw m (rw (copied (c_str buff) from until lo hi) h)),
      record {
        valid = seen.valid;
        same_rules = seen.same_rules;
        compiled = seen.compiled;
        views = seen.views;
      },
    )

-- A line that does not match changes nothing but that the expression is compiled.
pub regex_do_unmatched :
    (r : Pcre) (c : Config) (net : Inet) (e : LineEnv) (s : Store) (buff : Bytes)
    → IsReady r s
    → (r.exec (c_str buff)).0 ≢ 2
    → regex_do r c net e s buff ≡ ret (record s { compiled = true })
unfolding regex_do do_match
regex_do_unmatched r c net e s buff ready m = rw (prepare_once_lem r s ready) (ground arith)
