-- ===== src/Exclude/Adding.antt =====
-- `exclude_add` and `exclude_clear` of src/exclude.c: what a new record adds to the list.
use agentsmith.Base.{
  ℕ, zero, suc, Bool, true, false, ◌||◌, [], ◌∷◌, Option, none, some, ◌≡◌, refl, sym, ap, ◌∙◌, ◌⊎◌,
  inl, inr, arith, get_elem?, set, Bool-cases, ◌≢◌, ◌==◌, ltb, length, eq_of_test, ne_of_test,
}
use agentsmith.Base.Outcome.{
  Outcome, ret, die, undefined, ◌>>=◌, Retval, ok, err, Env, locked, locked_same, ReturnsOrExits,
  locked-ReturnsOrExits,
}
use agentsmith.Base.Cstring.{Bytes}
use agentsmith.Slots.{store}
use agentsmith.Slots.Find.{find}
use agentsmith.Slots.Layout.{IsLaidOut, Reserved, reserve_cases, store-IsLaidOut}
use agentsmith.Records.Add.{IsServing}
use agentsmith.Exclude.Address.{Parsed, exclude_parse_ip}
use agentsmith.Exclude.Rules.{
  ExcludeRecord, RuleTable, Address, Inet, to_address, covers, make_rule, insert_rule, add_parsed,
  exclude_add,
}
use agentsmith.Exclude.Membership.{RuleSlots, covered}

-- Whether some record covers an address, by the search.
covered-find :
    (a : Address) (s t : RuleSlots)
    → find (covers a) s ≡ find (covers a) t
    → covered a s ≡ covered a t
covered-find a s t h = sym (found s) ∙ ap is_found h ∙ found t
  where
    is_found : Option ExcludeRecord → Bool
    is_found none = false
    is_found (some r) = true

    found : (s : RuleSlots) → is_found (find (covers a) s) ≡ covered a s
    found [] = refl
    found (none ∷ s) = found s
    found (some r ∷ s) = ground (arith, found s)

covered-set :
    (a : Address) (slots : RuleSlots) (i : ℕ) (r : ExcludeRecord)
    → get_elem? slots i ≡ some none
    → covered a (set slots i (some r)) ≡ (covers a r || covered a slots)
covered-set a [] i r g = cc
covered-set a (none ∷ slots) zero r g = refl
covered-set a (some b ∷ slots) zero r g = cc
covered-set a (none ∷ slots) (suc i) r g = covered-set a slots i r g
covered-set a (some b ∷ slots) (suc i) r g = ground (arith, covered-set a slots i r g)

-- The list covers what it covered, and what the record covers.
pub record Covers (t u : RuleTable) (r : ExcludeRecord) : Type 0 where
  pub laid_out : IsLaidOut u
  pub adds : (a : Address) → covered a u.slots ≡ (covers a r || covered a t.slots)

-- The list is as good as before.
pub record Unchanged (t u : RuleTable) : Type 0 where
  pub laid_out : IsLaidOut u
  pub same : (a : Address) → covered a u.slots ≡ covered a t.slots

store-Covers :
    (t u : RuleTable) (i : ℕ) (r : ExcludeRecord) → Reserved t u i → Covers t (store u i r) r
unfolding store
store-Covers t u i r res = record {
  laid_out = store-IsLaidOut u i r res.keeps.laid_out res.in_range;
  adds = λ a.
      covered-set a u.slots i r res.free
      ∙ ap (λ b. covers a r || b) (covered-find a u.slots t.slots (res.keeps.same_find (covers a)));
}

-- How `exclude_add` ends once the address and its record are known.
abbrev AddCases : Env → RuleTable → ExcludeRecord → Outcome (RuleTable × Retval) → Type 0
AddCases e t r m =
    ((u : RuleTable) × (m ≡ ret (u, ok)) × Covers t u r)
    ⊎ ((u : RuleTable) × (m ≡ ret (u, err)) × Unchanged t u × (e.malloc ≡ false))
    ⊎ ((m ≡ die 3) × (e.realloc ≡ false))

insert_rule-AddCases :
    (e : Env) (t : RuleTable) (a : Address) (prefix : ℕ) {r : ExcludeRecord}
    → IsLaidOut t
    → make_rule a prefix ≡ ret r
    → AddCases e t r (insert_rule e t a prefix)
unfolding insert_rule
insert_rule-AddCases e t a prefix {r} w made = elim (reserve_cases e.realloc t w) [
  | inr (h, m) ↦ inr (inr (rw (h, insert_rule), m))
  | inl (u, i, h, res) ↦ elim (Bool-cases e.malloc) [
    | inl m ↦ inl (store u i r, rw (h, m, made, insert_rule), store-Covers t u i r res)
    | inr m ↦ inr (
        inl (
          u,
          rw (h, m, insert_rule),
          record {
            laid_out = res.keeps.laid_out;
            same = λ a. covered-find a u.slots t.slots (res.keeps.same_find (covers a));
          },
          m,
        ))
  ]
]

-- The address and the record of a text.
pub record Means (e : Env) (net : Inet) (text : Bytes) (a : Address) (r : ExcludeRecord)
    : Type 0 where
  pub parsed : Parsed
  pub parses : exclude_parse_ip e.copy text ≡ ret (some parsed)
  pub converts : to_address net parsed.af parsed.ip ≡ some a
  pub masks : make_rule a parsed.prefix ≡ ret r

body_lem :
    (e : Env) (net : Inet) (t : RuleTable) (text : Bytes) {a : Address} {r : ExcludeRecord}
    → (m : Means e net text a r)
    → (do p ← exclude_parse_ip e.copy text; add_parsed e net t p)
      ≡ insert_rule e t a m.parsed.prefix
unfolding add_parsed
body_lem e net t text m = rw (m.parses, m.converts)

-- With everything granted, the exclude list that `exclude_add` leaves for a text that is understood covers
-- what it covered before and what the new record covers, and nothing else.
pub exclude_add-Covers :
    (e : Env) (net : Inet) (t : RuleTable) (text : Bytes) {a : Address} {r : ExcludeRecord}
    → IsServing e
    → IsLaidOut t
    → Means e net text a r
    → (u : RuleTable) × (exclude_add e net t text ≡ ret (u, ok)) × Covers t u r
unfolding exclude_add
exclude_add-Covers e net t text {a} {r} s w m =
    served (insert_rule-AddCases e t a m.parsed.prefix w m.masks)
  where
    served :
        AddCases e t r (insert_rule e t a m.parsed.prefix)
        → (u : RuleTable) × (exclude_add e net t text ≡ ret (u, ok)) × Covers t u r
    served (inl (u, h, c)) =
        (u, locked_same e t _ s.locks s.unlocks ∙ body_lem e net t text m ∙ h, c)
    served (inr (inl (u, h, same, no_memory))) = cc (s.mallocs)
    served (inr (inr (h, no_memory))) = cc (s.reallocs)

-- With memory for the copy of the text.
exclude_add_copied :
    (e : Env) (net : Inet) (t : RuleTable) (text : Bytes) {a : Address} {r : ExcludeRecord}
    → IsLaidOut t
    → Means e net text a r
    → ReturnsOrExits
        (λ (u, v). Covers t u r ⊎ ((v ≡ err) × Unchanged t u))
        (exclude_add e net t text)
unfolding exclude_add
exclude_add_copied e net t text {a} {r} w m =
    locked-ReturnsOrExits e t _ (λ (u, v). Covers t u r ⊎ ((v ≡ err) × Unchanged t u))
      (inr (refl, record { laid_out = w; same = λ a. refl })) fail
      (rw (body_lem e net t text m) (ends (insert_rule-AddCases e t a m.parsed.prefix w m.masks)))
  where
    fail :
        (u : RuleTable) (v : Retval)
        → Covers t u r ⊎ ((v ≡ err) × Unchanged t u)
        → Covers t u r ⊎ ((err ≡ err) × Unchanged t u)
    fail u v (inl c) = inl c
    fail u v (inr (_, same)) = inr (refl, same)

    ends :
        {n : Outcome (RuleTable × Retval)}
        → AddCases e t r n
        → ReturnsOrExits (λ (u, v). Covers t u r ⊎ ((v ≡ err) × Unchanged t u)) n
    ends (inl (u, h, c)) = rw h (inl c)
    ends (inr (inl (u, h, same, _))) = rw h (inr (refl, same))
    ends (inr (inr (h, _))) = rw h refl

-- With the copy of the text granted, whether it is or not.
abbrev pub with_copy : Env → Env
with_copy e = record e { copy = true }

-- With a text that is understood when its copy is granted, and whatever the system answers, `exclude_add`
-- returns or exits with code 3, or its behaviour is undefined, which it is only if there is no memory
-- for the copy. If it returns, the vector is in order, and either the list covers the new record's
-- network too and is otherwise as before, or the result is RETVAL_ERR and the list covers what it did.
-- If the lock is granted and there is no memory for the copy, the behaviour is undefined.
pub exclude_add-ReturnsOrExits :
    (e : Env) (net : Inet) (t : RuleTable) (text : Bytes) {a : Address} {r : ExcludeRecord}
    → IsLaidOut t
    → Means (with_copy e) net text a r
    → ((e.copy ≡ true)
        × ReturnsOrExits
            (λ (u, v). Covers t u r ⊎ ((v ≡ err) × Unchanged t u))
            (exclude_add e net t text))
      ⊎ ((e.copy ≡ false) × (e.lock ≡ 0) × (exclude_add e net t text ≡ undefined))
      ⊎ ((e.copy ≡ false) × (e.lock ≢ 0) × (exclude_add e net t text ≡ ret (t, err)))
unfolding exclude_add exclude_parse_ip locked
exclude_add-ReturnsOrExits e net t text {a} {r} w m = elim (Bool-cases e.copy) [
  | inl c ↦ inl (
    c,
    exclude_add_copied e net t text w (record {
      parsed = m.parsed;
      parses = ap (λ b. exclude_parse_ip b text) c ∙ m.parses;
      converts = m.converts;
      masks = m.masks;
    }),
  )
  | inr c ↦ elim (Bool-cases (e.lock == 0)) [
    | inl l ↦ elim (Bool-cases (ltb (length text) 3)) [
      | inl short ↦ absurd (cc (rw short at (m.parses)))
      | inr long ↦ inr (inl (c, eq_of_test _ _ l, rw (l, long, c) refl))
    ]
    | inr l ↦ inr (inr (c, ne_of_test _ _ l, rw l refl))
  ]
]
