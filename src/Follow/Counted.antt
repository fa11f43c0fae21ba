-- ===== src/Follow/Counted.antt =====
-- From the log to the records: src/follow.c with `regex_do` of src/regex.c for each line.
use native.Mathlib.Nat.{zero-add}
use agentsmith.Base.{
  ℕ, suc, ◌+◌, ◌-◌, ◌≤◌, Bool, true, false, List, [], ◌∷◌, ◌++◌, Option, none, some, ◌==◌, ◌≡◌, ◌≢◌,
  refl, ◌∙◌, ap, ◌⊎◌, inl, inr, arith, if◌then◌else◌, Bool-cases, length, take, drop,
}
use agentsmith.Base.Outcome.{Outcome, ret, die, aborted, undefined, ◌>>=◌}
use agentsmith.Base.Cstring.{Bytes, c_str}
use agentsmith.Config.{Config}
use agentsmith.Slots.Layout.{IsLaidOut}
use agentsmith.Records.Add.{next_ip}
use agentsmith.Records.History.{HostMap, put, Refines, updated}
use agentsmith.Exclude.Address.{Parsed, exclude_parse_ip}
use agentsmith.Exclude.Rules.{Inet, RuleTable, to_address}
use agentsmith.Exclude.Membership.{text_covered}
use agentsmith.Watch.{Pcre, Store, LineEnv, count}
use agentsmith.Watch.Matching.{
  Seen, IsAddress, IsReady, is_covered, regex_do-Seen, regex_do_unmatched,
}
use agentsmith.Follow.{readtoeof, follow_start, follow_rounds}
use agentsmith.Follow.Lines.{IsPartial, AllLines, concat_lines, do_lines}
use agentsmith.Follow.Growth.{at, growing, follow_rounds-growing}
use agentsmith.Follow.Cutting.{readtoeof-concat_lines}

-- The first capture of a line, if it matches.
abbrev pub captured : Bytes → ℕ × ℕ × ℕ → Option Bytes
captured text (retval, from, until) =
    if retval == 2 then some (take (until - from) (drop from text)) else none

-- Whether the list covers the address in a text.
abbrev pub parsed_covered : Inet → RuleTable → Outcome (Option Parsed) → Bool
parsed_covered net rules (ret none) = false
parsed_covered net rules (ret (some p)) = text_covered (to_address net p.af p.ip) rules.slots
parsed_covered net rules (die n) = false
parsed_covered net rules aborted = false
parsed_covered net rules undefined = false

module _ (r : Pcre) (net : Inet) (e : ℕ → LineEnv) where
  -- The n-th line matches, its capture is one whole address, and the system grants everything.
  pub record IsMatch (n : ℕ) (line : Bytes) : Type 0 where
    pub from : ℕ
    pub until : ℕ
    pub parsed : Parsed
    pub matches : r.exec (c_str line) ≡ (2, from, until)
    pub forward : from ≤ until
    pub fits : until ≤ from + 1023
    pub copies : (e n).exclude.copy ≡ true
    pub address : IsAddress net (e n) (take (until - from) (drop from (c_str line))) parsed

  abbrev pub AllCountable : ℕ → List Bytes → Type 0
  AllCountable n [] = Unit
  AllCountable n (line ∷ lines) =
      (((r.exec (c_str line)).0 ≢ 2) ⊎ IsMatch n line) × AllCountable (n + 1) lines

module _ (r : Pcre) (c : Config) (net : Inet) (e : ℕ → LineEnv) (rules : RuleTable) where
  -- What the n-th line does to the map from addresses to records.
  abbrev pub count_text : ℕ → Option Bytes → HostMap → HostMap
  count_text n none m = m
  count_text n (some text) m =
      if parsed_covered net rules (exclude_parse_ip true text)
      then m
      else put (c_str text) (some (next_ip c (e n).records.now text (m (c_str text)))) m

  abbrev pub count_lines : ℕ → List Bytes → HostMap → HostMap
  count_lines n [] m = m
  count_lines n (line ∷ lines) m =
      count_lines (n + 1) lines (count_text n (captured (c_str line) (r.exec (c_str line))) m)

  -- The vector holds the map that the lines make of the one before.
  pub record Holds (m : HostMap) (t : Store) : Type 0 where
    pub refines : Refines m t.vector
    pub same_rules : t.rules ≡ rules
    pub ready : IsReady r t

  unmatched :
      (n : ℕ) (line : Bytes) (m : HostMap)
      → (r.exec (c_str line)).0 ≢ 2
      → count_text n (captured (c_str line) (r.exec (c_str line))) m ≡ m
  unmatched n line m h = rw (differs _ h) refl
    where
      differs : (k : ℕ) → k ≢ 2 → (k == 2) ≡ false
      differs k h = ground arith

  matched :
      (n : ℕ) (line : Bytes) (m : HostMap) (s t : Store) (w : IsMatch r net e n line)
      → Holds m s
      → Seen c net (e n) s t (take (w.until - w.from) (drop w.from (c_str line))) w.parsed
      → Refines (count_text n (captured (c_str line) (r.exec (c_str line))) m) t.vector
  matched n line m s t w h seen =
      let text = take (w.until - w.from) (drop w.from (c_str line)) in
      let parses : exclude_parse_ip true text ≡ ret (some w.parsed) =
        rw w.copies at w.address.parses in
      rw (w.matches) (
        rw parses (elim (Bool-cases (is_covered net s w.parsed)) [
          | inl k ↦
              rw (← h.same_rules, k)
                (record {
                  valid = seen.valid;
                  holds = λ j. seen.views j ∙ rw k (h.refines.holds j);
                })
          | inr k ↦
              rw (← h.same_rules, k)
                (updated (c_str text) (λ x. some (next_ip c (e n).records.now text x)) h.refines
                  seen.valid (λ j. seen.views j ∙ rw k refl))
        ]))

  -- One line.
  count-Holds :
      (n : ℕ) (line : Bytes) (m : HostMap) (s : Store)
      → IsLaidOut rules
      → ((r.exec (c_str line)).0 ≢ 2) ⊎ IsMatch r net e n line
      → Holds m s
      → (t : Store) × (count r c net e (n, s) line ≡ ret (n + 1, t))
        × Holds (count_text n (captured (c_str line) (r.exec (c_str line))) m) t
  count-Holds n line m s l (inl other) h = (
    record s { compiled = true },
    rw (regex_do_unmatched r c net (e n) s line h.ready other) refl,
    rw (unmatched n line m other) (record {
      refines = record { valid = h.refines.valid; holds = h.refines.holds };
      same_rules = h.same_rules;
      ready = inl refl;
    }),
  )
  count-Holds n line m s l (inr w) h =
      let (t, k, seen) =
        regex_do-Seen r c net (e n) s line w.from w.until w.parsed h.ready h.refines.valid
          (rw (h.same_rules) l) w.matches w.forward w.fits w.address in
      (
        t,
        rw k refl,
        record {
          refines = matched n line m s t w h seen;
          same_rules = seen.same_rules ∙ h.same_rules;
          ready = inl seen.compiled;
        },
      )

  do_lines-Holds :
      (n : ℕ) (lines : List Bytes) (m : HostMap) (s : Store)
      → IsLaidOut rules
      → AllCountable r net e n lines
      → Holds m s
      → (t : Store) × (do_lines (count r c net e) (n, s) lines ≡ ret (n + length lines, t))
        × Holds (count_lines n lines m) t
  do_lines-Holds n [] m s l a h = let same : n ≡ n + 0 = omega arith in (s, rw (← same) refl, h)
  do_lines-Holds n (line ∷ lines) m s l a h =
      let (t, k, held) = count-Holds n line m s l a.0 h in
      let (u, k', held') = do_lines-Holds (n + 1) lines _ t l a.1 held in
      let same : n + 1 + length lines ≡ n + suc (length lines) = omega arith in
      (u, rw k (k' ∙ rw same refl), held')

  -- A log grows by some lines and the start of one more, in whatever portions. Every line either does not
  -- match or its capture is one whole address, the system grants everything, the vector is valid and the
  -- expression is good. Then `follow` with `regex_do` for each line reads all of it: the vector is
  -- valid, and every address has what the lines make of the record that was there, in their order,
  -- with each captured address counted unless the exclude list covers it.
  pub follow_rounds-Holds :
      (opens : Bool) (ino : ℕ) (content rest : Bytes) (xs lines : List Bytes) (m : HostMap)
      (s : Store)
      → concat_lines xs ≡ concat_lines lines ++ rest
      → AllLines lines
      → IsPartial rest
      → IsLaidOut rules
      → AllCountable r net e 0 lines
      → Holds m s
      → (t : Store) × ((do
        f ← follow_start true (some (length content, ino)) true []
        follow_rounds (count r c net e) (growing opens content xs) f (0, s))
          ≡ ret (at ino (content ++ concat_lines xs) rest, (length lines, t)))
        × Holds (count_lines 0 lines m) t
  follow_rounds-Holds opens ino content rest xs lines m s split w p l a h =
      let (t, k, held) = do_lines-Holds 0 lines m s l a h in
      let reads : readtoeof (count r c net e) [] (0, s) (concat_lines xs)
          ≡ ret (rest, (length lines, t)) =
        ap (readtoeof (count r c net e) [] (0, s)) split
        ∙ readtoeof-concat_lines (count r c net e) lines rest (0, s) w p
        ∙ rw k (rw (zero-add (length lines)) refl) in
      (t, follow_rounds-growing (count r c net e) opens ino content xs (0, s) ∙ rw reads refl, held)
