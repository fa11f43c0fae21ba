-- ===== src/Settings/Once.antt =====
-- The loop of `config_read` in src/cfg.c goes round once more than the file has lines, when the file ends in a
-- newline: `fgets` then leaves the last line in the buffer. No option is set twice by that.
use agentsmith.Base.{
  ℕ, zero, suc, ◌≤◌, ◌<◌, true, false, List, [], ◌∷◌, ◌++◌, Option, none, some, ◌==◌, ltb, ◌≡◌,
  refl, sym, ap, ◌∙◌, ◌⊎◌, inl, inr, arith, if◌then◌else◌, Bool-cases, Option-cases, length,
  length-append,
}
use agentsmith.Base.Outcome.{Outcome, ret, undefined, ◌>>=◌, bind_same}
use agentsmith.Base.Cstring.{Bytes}
use agentsmith.Watch.{buffsize}
use agentsmith.Exclude.Address.{split_at}
use agentsmith.Exclude.File.{fgets}
use agentsmith.Exclude.Reading.{EndsAtNewline, joined_lines, fgets-Cut, fgets-nonempty}
use agentsmith.Settings.{Settings}
use agentsmith.Settings.Addresses.{Names}
use agentsmith.Settings.File.{
  is_comment, option_in, option_of, left_over, do_option, refilled, hits_eof, config_lines,
}

-- A text before the first byte of a kind has no such byte.
split_at-before :
    (c : ℕ) (line : Bytes) {token rest : Bytes}
    → split_at c line ≡ some (token, rest)
    → split_at c token ≡ none
unfolding split_at
split_at-before c [] h = cc
split_at-before c (x ∷ xs) {token} {rest} h = elim (Bool-cases (x == c)) [
  | inl e ↦ first (rw e at h)
  | inr e ↦ elim (Option-cases (split_at c xs)) [
    | inl k ↦ cc (rw (e, k) at h)
    | inr ((before, behind), k) ↦ later e before behind (split_at-before c xs k) (rw (e, k) at h)
  ]
]
  where
    first :
        ◌≡◌ {A = Option (Bytes × Bytes)} (some ([], xs)) (some (token, rest))
        → split_at c token ≡ none
    first h = let same : [] ≡ token = cc in rw⁻¹ same refl

    later :
        (x == c) ≡ false
        → (before behind : Bytes) → split_at c before ≡ none
        → ◌≡◌ {A = Option (Bytes × Bytes)} (some (x ∷ before, behind)) (some (token, rest))
        → split_at c token ≡ none
    later e before behind none_before h =
        let same : (x ∷ before) ≡ token = cc in rw⁻¹ same (rw (e, none_before) refl)

-- The line that stays in the buffer has no option any more.
option_of-left_over : (line : Bytes) → option_of (left_over line) ≡ none
unfolding option_of left_over option_in
option_of-left_over line = elim (Bool-cases (ltb (length line) 2)) [
  | inl e ↦ rw e (rw e refl)
  | inr e ↦ elim (Bool-cases (is_comment line)) [
    | inl k ↦ rw (e, k) (rw (e, k) refl)
    | inr k ↦ elim (Option-cases (split_at b'=' line)) [
      | inl n ↦ rw (e, k, n) (rw (e, k, n) refl)
      | inr ((token, rest), n) ↦ rw (e, k, n) (unsplit token (split_at-before b'=' line n))
    ]
  ]
]
  where
    unsplit :
        (token : Bytes)
        → split_at b'=' token ≡ none
        → (if ltb (length token) 2
            then none
            else if is_comment token
            then none
            else option_in (split_at b'=' token))
          ≡ none
    unsplit token n = rw n (ground arith)

-- The lines of a file, each handled once.
abbrev pub set_each : Names → Settings → List Bytes → Outcome Settings
set_each n s [] = ret s
set_each n s (line ∷ lines) = do s' ← do_option n s (option_of line); set_each n s' lines

-- Every line has a byte at least, fits the buffer, and has its newline at the end.
abbrev pub AreConfigLines : List Bytes → Type 0
AreConfigLines [] = Unit
AreConfigLines (line ∷ lines) =
    (0 < length line) × (length line < buffsize) × EndsAtNewline line × AreConfigLines lines

-- What is in the buffer sets no option.
abbrev IsSpent : Option Bytes → Type 0
IsSpent none = ⊥
IsSpent (some b) = option_of b ≡ none

-- The lines of what is left of a file, whatever is in the buffer if that sets no option.
record Cuts (fuel : ℕ) (buff : Option Bytes) (file : Bytes) : Type 0 where
  lines : List Bytes
  joins : joined_lines lines ≡ file
  are_lines : AreConfigLines lines
  sets : (n : Names) (s : Settings) → config_lines fuel n buff file s ≡ set_each n s lines

spent_end : (fuel : ℕ) (b : Bytes) → option_of b ≡ none → Cuts (suc fuel) (some b) []
unfolding config_lines fgets hits_eof do_option
spent_end fuel b spent = record {
  lines = [];
  joins = refl;
  are_lines = tt;
  sets = λ n s. rw spent refl;
}

rest_shorter :
    (line rest file : Bytes) (fuel : ℕ)
    → line ++ rest ≡ file
    → 0 < length line
    → length file < suc fuel
    → length rest < fuel
rest_shorter line rest file fuel h k le = omega (arith, length-append line rest, ap length h)

below : (n : ℕ) → n ≤ 1023 → n < buffsize
below n h = omega arith

refilled_lem :
    (buff : Option Bytes) (line : Bytes) → 0 < length line → refilled buff line ≡ some line
refilled_lem buff [] h = absurd (omega arith)
refilled_lem buff (c ∷ cs) h = refl

eof_rest : (line rest : Bytes) → hits_eof line rest ≡ true → rest ≡ []
unfolding hits_eof
eof_rest line [] h = refl
eof_rest line (c ∷ rest) h = cc

cuts :
    (fuel : ℕ) (buff : Option Bytes) (file : Bytes)
    → (0 < length file) ⊎ IsSpent buff
    → length file < fuel
    → Cuts fuel buff file
unfolding config_lines
cuts zero buff file h le = absurd (omega arith)
cuts (suc fuel) none [] (inl h) le = absurd (omega arith)
cuts (suc fuel) none [] (inr h) le = absurd h
cuts (suc fuel) (some b) [] (inl h) le = absurd (omega arith)
cuts (suc fuel) (some b) [] (inr h) le = spent_end fuel b h
cuts (suc fuel) buff (c ∷ file) h le =
    let k = fgets-Cut 1023 (c ∷ file) in
    let line = (fgets 1023 (c ∷ file)).0 in
    let rest = (fgets 1023 (c ∷ file)).1 in
    let some_byte = fgets-nonempty 1022 c file in
    let shorter = rest_shorter line rest (c ∷ file) fuel k.joins some_byte le in
    let spent = option_of-left_over line in
    let next = cuts fuel (some (left_over line)) rest (inr spent) shorter in
    elim (Bool-cases (hits_eof line rest)) [
      | inl e ↦ record {
        lines = line ∷ [];
        joins = ap (λ r. line ++ r) (sym (eof_rest line rest e)) ∙ k.joins;
        are_lines = (some_byte, below _ k.fits, k.line, tt);
        sets = λ n s. rw (refilled_lem buff line some_byte, e, config_lines) refl;
      }
      | inr e ↦ record {
        lines = line ∷ next.lines;
        joins = ap (λ r. line ++ r) next.joins ∙ k.joins;
        are_lines = (some_byte, below _ k.fits, k.line, next.are_lines);
        sets = λ n s.
            rw (refilled_lem buff line some_byte, e, config_lines)
              (bind_same (do_option n s (option_of line)) _ _ (λ s'. next.sets n s'));
      }
    ]

pub config_lines_enough :
    (fuel : ℕ) (file : Bytes)
    → 0 < length file
    → length file < fuel
    → (lines : List Bytes) × (joined_lines lines ≡ file)
      × AreConfigLines lines
      × ((n : Names) (s : Settings) → config_lines fuel n none file s ≡ set_each n s lines)
config_lines_enough fuel file h le =
    let c = cuts fuel none file (inl h) le in (c.lines, c.joins, c.are_lines, c.sets)

-- An empty file makes the loop look at the buffer before anything has been read into it.
pub config_lines_empty :
    (fuel : ℕ) (n : Names) (s : Settings) → config_lines (suc fuel) n none [] s ≡ undefined
unfolding config_lines fgets
config_lines_empty fuel n s = refl
