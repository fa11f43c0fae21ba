-- ===== src/Exclude/Kept.antt =====
-- Whatever a text is and the system answers, the operations of src/exclude.c that return leave a list in order.
use agentsmith.Base.{
  ℕ, zero, suc, Bool, [], ◌∷◌, Option, none, some, ◌==◌, ltb, ◌≡◌, refl, ◌⊎◌, inl, inr,
  if◌then◌else◌, Bool-cases, length,
}
use agentsmith.Base.Outcome.{
  ret, ◌>>=◌, Env, Retval, ok, err, IfReturns, anything, bind-IfReturns, assert-IfReturns,
  locked-IfReturns,
}
use agentsmith.Base.Cstring.{Bytes}
use agentsmith.Slots.{chunk}
use agentsmith.Slots.Layout.{IsLaidOut, start-IsLaidOut, store-IsLaidOut, reserve_cases}
use agentsmith.Exclude.Address.{Parsed, exclude_parse_ip, chomp}
use agentsmith.Exclude.Rules.{
  Inet, RuleTable, Address, to_address, make_rule, insert_rule, add_address, add_parsed,
  exclude_add, rules_find, exclude_isexcluded, exclude_clear,
}
use agentsmith.Exclude.File.{fgets, read_line, read_lines, exclude_readfile}

abbrev pub LaidOut : RuleTable × Retval → Type 0
LaidOut (t, r) = IsLaidOut t

insert_rule-LaidOut :
    (e : Env) (t : RuleTable) (a : Address) (prefix : ℕ)
    → IsLaidOut t
    → IfReturns LaidOut (insert_rule e t a prefix)
unfolding insert_rule
insert_rule-LaidOut e t a prefix w = elim (reserve_cases e.realloc t w) [
  | inr (h, m) ↦ rw (h, IfReturns) tt
  | inl (u, i, h, res) ↦ elim (Bool-cases e.malloc) [
    | inr m ↦ rw (h, m, IfReturns) (res.keeps.laid_out)
    | inl m ↦
        rw (h, m, IfReturns)
          (bind-IfReturns (λ r. Unit) LaidOut (make_rule a prefix) _ (anything (make_rule a prefix))
            (λ r k. store-IsLaidOut u i r res.keeps.laid_out res.in_range))
  ]
]

add_address-LaidOut :
    (e : Env) (t : RuleTable) (prefix : ℕ) (a : Option Address)
    → IsLaidOut t
    → IfReturns LaidOut (add_address e t prefix a)
unfolding add_address
add_address-LaidOut e t prefix none w = w
add_address-LaidOut e t prefix (some a) w = insert_rule-LaidOut e t a prefix w

add_parsed-LaidOut :
    (e : Env) (net : Inet) (t : RuleTable) (p : Option Parsed)
    → IsLaidOut t
    → IfReturns LaidOut (add_parsed e net t p)
unfolding add_parsed
add_parsed-LaidOut e net t none w = w
add_parsed-LaidOut e net t (some p) w =
    add_address-LaidOut e t p.prefix (to_address net p.af p.ip) w

exclude_add-LaidOut :
    (e : Env) (net : Inet) (t : RuleTable) (text : Bytes)
    → IsLaidOut t
    → IfReturns LaidOut (exclude_add e net t text)
unfolding exclude_add
exclude_add-LaidOut e net t text w = locked-IfReturns e t _ IsLaidOut w (
    bind-IfReturns (λ p. Unit) LaidOut (exclude_parse_ip e.copy text) _
      (anything (exclude_parse_ip e.copy text)) (λ p k. add_parsed-LaidOut e net t p w))

-- `exclude_isexcluded` leaves the list as it is.
pub exclude_isexcluded_same :
    (e : Env) (net : Inet) (t : RuleTable) (text : Bytes)
    → IfReturns (λ (u, r). u ≡ t) (exclude_isexcluded e net t text)
unfolding exclude_isexcluded
exclude_isexcluded_same e net t text =
    locked-IfReturns e t _ (λ u. u ≡ t) refl
      (bind-IfReturns (λ p. Unit) (λ (u, r). u ≡ t) (rules_find e.copy net t text) _
        (anything (rules_find e.copy net t text)) (λ p k. refl))

exclude_clear-LaidOut :
    (e : Env) (calloc : Bool) (t : RuleTable)
    → IsLaidOut t
    → IfReturns LaidOut (exclude_clear e calloc t)
unfolding exclude_clear
exclude_clear-LaidOut e calloc t w = assert-IfReturns LaidOut t.initialized _ (
    locked-IfReturns e t _ IsLaidOut w (elim (Bool-cases calloc) [
      | inl h ↦ rw (h, IfReturns) (start-IsLaidOut (record t { size = chunk; fill = 0 }) refl refl)
      | inr h ↦ rw (h, IfReturns) tt
    ]))

added-LaidOut :
    (e : Env) (net : Inet) (t : RuleTable) (text : Bytes)
    → IsLaidOut t
    → IfReturns IsLaidOut (do (t', r) ← exclude_add e net t text; ret t')
added-LaidOut e net t text w =
    bind-IfReturns LaidOut IsLaidOut (exclude_add e net t text) _
      (exclude_add-LaidOut e net t text w) (λ (t', r) k. k)

read_line-LaidOut :
    (e : Env) (net : Inet) (t : RuleTable) (line : Bytes)
    → IsLaidOut t
    → IfReturns IsLaidOut (read_line e net t line)
unfolding read_line
read_line-LaidOut e net t [] w = added-LaidOut e net t [] w
read_line-LaidOut e net t (c ∷ cs) w = elim (Bool-cases (c == b'#')) [
  | inl h ↦ rw (h, IfReturns) w
  | inr h ↦
      rw (h, IfReturns)
        (added-LaidOut e net t (if ltb 1 (length (c ∷ cs)) then chomp (c ∷ cs) else c ∷ cs) w)
]

read_lines-LaidOut :
    (fuel : ℕ) (e : Env) (net : Inet) (t : RuleTable) (file : Bytes)
    → IsLaidOut t
    → IfReturns IsLaidOut (read_lines fuel e net t file)
unfolding read_lines
read_lines-LaidOut zero e net t file w = w
read_lines-LaidOut (suc fuel) e net t [] w = w
read_lines-LaidOut (suc fuel) e net t (c ∷ file) w =
    let line = (fgets 99 (c ∷ file)).0 in
    let rest = (fgets 99 (c ∷ file)).1 in
    bind-IfReturns IsLaidOut IsLaidOut (read_line e net t line) _ (read_line-LaidOut e net t line w)
      (λ t' k. read_lines-LaidOut fuel e net t' rest k)

-- The thread that reads the exclude file, whatever is in the file.
pub exclude_readfile-LaidOut :
    (e : Env) (calloc : Bool) (net : Inet) (t : RuleTable) (name file : Option Bytes)
    → IsLaidOut t
    → IfReturns IsLaidOut (exclude_readfile e calloc net t name file)
unfolding exclude_readfile
exclude_readfile-LaidOut e calloc net t none file w = w
exclude_readfile-LaidOut e calloc net t (some []) file w = w
exclude_readfile-LaidOut e calloc net t (some (c ∷ name)) none w = w
exclude_readfile-LaidOut e calloc net t (some (c ∷ name)) (some text) w =
    bind-IfReturns LaidOut IsLaidOut (exclude_clear e calloc t) _
      (exclude_clear-LaidOut e calloc t w)
      (λ (t', r) k. elim (Retval-cases r) [
        | inl h ↦ rw (h, IfReturns) (read_lines-LaidOut (length text) e net t' text k)
        | inr h ↦ rw (h, IfReturns) k
      ])
  where
    Retval-cases : (r : Retval) → (r ≡ ok) ⊎ (r ≡ err)
    Retval-cases ok = inl refl
    Retval-cases err = inr refl
