-- ===== src/Exclude/Membership.antt =====
-- `exclude_isexcluded` of src/exclude.c: which addresses the list covers.
use agentsmith.Base.{
  ℕ, Bool, true, false, ◌||◌, List, [], ◌∷◌, Option, none, some, ◌==◌, ◌≡◌, refl, ap, ◌∙◌, inl, inr,
  arith, if◌then◌else◌, Bool-cases,
}
use agentsmith.Base.Outcome.{Outcome, ret, aborted, ◌>>=◌, Retval, ok, err, Env, locked_same}
use agentsmith.Base.Cstring.{Bytes}
use agentsmith.Slots.Find.{find, find_slot-find, record_of}
use agentsmith.Slots.Layout.{IsLaidOut}
use agentsmith.Exclude.Address.{Parsed, exclude_parse_ip, width}
use agentsmith.Exclude.Rules.{
  ExcludeRecord, RuleTable, Address, Inet, to_address, covers, find_address, find_parsed,
  rules_find, hit, exclude_isexcluded,
}

abbrev pub RuleSlots : Type 0
RuleSlots = List (Option ExcludeRecord)

-- Whether some record of the list covers the address.
abbrev pub covered : Address → RuleSlots → Bool
covered a [] = false
covered a (none ∷ slots) = covered a slots
covered a (some r ∷ slots) = covers a r || covered a slots

-- A text that is no valid address is covered by nothing.
abbrev pub text_covered : Option Address → RuleSlots → Bool
text_covered none slots = false
text_covered (some a) slots = covered a slots

abbrev pub retval : Bool → Retval
retval true = ok
retval false = err

hit-record_of : {A : Type 0} (o : Option (ℕ × A)) → hit o ≡ hit (record_of o)
hit-record_of none = refl
hit-record_of (some (i, a)) = refl

hit-find :
    (a : Address) (slots : RuleSlots) → hit (find (covers a) slots) ≡ retval (covered a slots)
hit-find a [] = refl
hit-find a (none ∷ slots) = hit-find a slots
hit-find a (some r ∷ slots) = ground (arith, hit-find a slots)

hit-find_address :
    (t : RuleTable) (o : Option Address)
    → IsLaidOut t
    → hit (find_address t o) ≡ retval (text_covered o t.slots)
unfolding find_address
hit-find_address t none w = refl
hit-find_address t (some a) w =
    hit-record_of _
    ∙ ap hit (find_slot-find (covers a) t.slots 0 t.fill w.empty)
    ∙ hit-find a t.slots

-- What `exclude_isexcluded` answers for a text with these parts.
abbrev pub answer : Inet → RuleTable → Option Parsed → Outcome (RuleTable × Retval)
answer net t none = ret (t, err)
answer net t (some p) =
    if p.prefix == width p.af
    then ret (t, retval (text_covered (to_address net p.af p.ip) t.slots))
    else aborted

answer_lem :
    (net : Inet) (t : RuleTable) (p : Option Parsed)
    → IsLaidOut t
    → (do found ← find_parsed net t p; ret (t, hit found)) ≡ answer net t p
unfolding find_parsed
answer_lem net t none w = refl
answer_lem net t (some p) w = elim (Bool-cases (p.prefix == width p.af)) [
  | inl e ↦ rw e (ap (λ r. ret (t, r)) (hit-find_address t (to_address net p.af p.ip) w))
  | inr e ↦ rw e
]

-- With the locks granted and the text parsed, `exclude_isexcluded` leaves the list alone. Its result is
-- RETVAL_OK if some record of the list covers the address of the text, and RETVAL_ERR if none does
-- or the text is no address. On an address with a prefix of less than the full width it fails an
-- assertion.
pub exclude_isexcluded-answer :
    (e : Env) (net : Inet) (t : RuleTable) (text : Bytes) {p : Option Parsed}
    → IsLaidOut t
    → e.lock ≡ 0
    → e.unlock ≡ 0
    → exclude_parse_ip e.copy text ≡ ret p
    → exclude_isexcluded e net t text ≡ answer net t p
unfolding exclude_isexcluded rules_find
exclude_isexcluded-answer e net t text {p} w l u h =
    locked_same e t _ l u ∙ rw h (answer_lem net t p w)
