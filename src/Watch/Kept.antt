-- ===== src/Watch/Kept.antt =====
-- Whatever the system answers, a call of `regex_do` of src/regex.c that returns keeps the vector valid and the
-- exclude list as it was.
use agentsmith.Base.{
  ℕ, ◌+◌, ◌-◌, ◌≤◌, Bool, true, false, ◌&&◌, [], ◌∷◌, ◌==◌, ltb, leb, ◌≡◌, refl, inl, inr, arith,
  Bool-cases, drop, length, length-take,
}
use agentsmith.Base.Outcome.{IfReturns, bind-IfReturns, ReturnsOrExits-IfReturns}
use agentsmith.Base.Cstring.{Bytes, c_str}
use agentsmith.Config.{Config}
use agentsmith.Records.{records_add_ip}
use agentsmith.Records.Lookup.{IsValid}
use agentsmith.Records.Operations.{records_add_ip-Leaves}
use agentsmith.Exclude.Rules.{Inet, RuleTable, exclude_isexcluded}
use agentsmith.Exclude.Kept.{exclude_isexcluded_same}
use agentsmith.Watch.{
  Pcre, regex_prepare, Store, LineEnv, is_acted_on, add_unless_excluded, copy_match, do_match,
  prepare_once, regex_do,
}

-- What the expression captures is no longer than an address that the vector stores whole.
abbrev pub CapturesFit : Pcre → Type 0
CapturesFit p = (text : Bytes) → ((p.exec text).2 ≤ (p.exec text).1 + 45)

-- What a call leaves.
abbrev pub Keeps : RuleTable → Store → Type 0
Keeps rules s = IsValid s.vector × (s.rules ≡ rules)

length-c_str : (s : Bytes) → length (c_str s) ≤ length s
unfolding c_str
length-c_str [] = omega arith
length-c_str (c ∷ cs) = ground (arith, length-c_str cs)

add_unless_excluded-Keeps :
    (c : Config) (net : Inet) (e : LineEnv) (s : Store) (text : Bytes)
    → length text ≤ 45
    → IsValid s.vector
    → IfReturns (Keeps s.rules) (add_unless_excluded c net e s text)
unfolding add_unless_excluded
add_unless_excluded-Keeps c net e s text n w =
    let fits : length (c_str text) ≤ 45 = omega (arith, length-c_str text) in
    bind-IfReturns (λ (u, x). u ≡ s.rules) (Keeps s.rules)
      (exclude_isexcluded e.exclude net s.rules text) _
      (exclude_isexcluded_same e.exclude net s.rules text)
      (λ (u, x) same. elim (Bool-cases (is_acted_on x)) [
        | inr h ↦ rw (h, IfReturns) (w, same)
        | inl h ↦
            rw (h, IfReturns)
              (bind-IfReturns _ (Keeps s.rules) (records_add_ip c e.records s.vector text) _
                (ReturnsOrExits-IfReturns _ (records_add_ip c e.records s.vector text)
                  (records_add_ip-Leaves e.records s.vector w c text fits))
                (λ (v, r) (w', _). (w', same)))
      ])

copy_match_fits :
    (buff : Bytes) (from until : ℕ)
    → until ≤ from + 45
    → IfReturns (λ text. length text ≤ 45) (copy_match buff from until)
unfolding copy_match
copy_match_fits buff from until h = elim (Bool-cases (leb from until && ltb (until - from) 1024)) [
  | inl k ↦ rw (k, IfReturns) (omega (arith, length-take (until - from) (drop from buff)))
  | inr k ↦ rw (k, IfReturns) tt
]

prepare_once-IfReturns : (p : Pcre) (b : Bool) → IfReturns (λ u. Unit) (prepare_once p b)
unfolding prepare_once regex_prepare
prepare_once-IfReturns p true = tt
prepare_once-IfReturns p false =
    elim (Bool-cases (p.compiles && p.studies && p.fullinfo == 0 && p.capturecount == 1)) [
      | inl h ↦ rw (h, IfReturns) tt
      | inr h ↦ rw (h, IfReturns) tt
    ]

pub regex_do-Keeps :
    (p : Pcre) (c : Config) (net : Inet) (e : LineEnv) (s : Store) (buff : Bytes)
    → CapturesFit p
    → IsValid s.vector
    → IfReturns (Keeps s.rules) (regex_do p c net e s buff)
unfolding regex_do do_match
regex_do-Keeps p c net e s buff fits w =
    bind-IfReturns (λ u. Unit) (Keeps s.rules) (prepare_once p s.compiled) _
      (prepare_once-IfReturns p s.compiled)
      (λ u _. elim (Bool-cases ((p.exec (c_str buff)).0 == 2)) [
        | inr h ↦ rw (h, IfReturns) (w, refl)
        | inl h ↦
            rw (h, IfReturns)
              (bind-IfReturns (λ text. length text ≤ 45) (Keeps s.rules)
                (copy_match (c_str buff) (p.exec (c_str buff)).1 (p.exec (c_str buff)).2) _
                (copy_match_fits (c_str buff) (p.exec (c_str buff)).1 (p.exec (c_str buff)).2
                  (fits (c_str buff)))
                (λ text n.
                  add_unless_excluded-Keeps c net e (record s { compiled = true }) text n w))
      ])
