-- ===== src/Exclude/Reading.antt =====
-- The loop of src/exclude.c over the exclude file: the file is cut into lines, and every one is read.
use agentsmith.Base.{
  ℕ, zero, suc, ◌≤◌, ◌<◌, List, [], ◌∷◌, ◌++◌, ◌==◌, ◌≡◌, ◌≢◌, refl, ap, ◌∙◌, arith, Bool-cases,
  Bool, ltb, ne_of_test, inl, inr, length, length-append, true, false, ◌⊎◌, sym, if◌then◌else◌,
  eq_of_test,
}
use agentsmith.Base.Outcome.{Outcome, ret, ◌>>=◌, Env, bind_same, bind_assoc}
use agentsmith.Base.Cstring.{Bytes}
use agentsmith.Exclude.Rules.{Inet, RuleTable, exclude_add}
use agentsmith.Exclude.Address.{chomp}
use agentsmith.Exclude.File.{max_exclude_line_length, fgets, read_line, read_lines}

-- A newline stands at the end of a line only.
abbrev pub EndsAtNewline : Bytes → Type 0
EndsAtNewline [] = Unit
EndsAtNewline (c ∷ []) = Unit
EndsAtNewline (c ∷ d ∷ cs) = (c ≢ b'\n') × EndsAtNewline (d ∷ cs)

EndsAtNewline-cons : (c : ℕ) (cs : Bytes) → c ≢ b'\n' → EndsAtNewline cs → EndsAtNewline (c ∷ cs)
EndsAtNewline-cons c [] h w = tt
EndsAtNewline-cons c (d ∷ cs) h w = (h, w)

-- Whether a line has its newline.
abbrev pub ends_line : Bytes → Bool
ends_line [] = false
ends_line (c ∷ []) = c == b'\n'
ends_line (c ∷ d ∷ cs) = ends_line (d ∷ cs)

ends_line-cons : (c : ℕ) (cs : Bytes) → ends_line cs ≡ true → ends_line (c ∷ cs) ≡ true
ends_line-cons c [] h = cc
ends_line-cons c (d ∷ cs) h = h

-- `fgets` stops behind a newline, with its buffer full, or at the end of the file, and nowhere else.
abbrev Stops : ℕ → Bytes × Bytes → Type 0
Stops room (line, rest) = (ends_line line ≡ true) ⊎ (length line ≡ room) ⊎ (rest ≡ [])

fgets-Stops : (room : ℕ) (file : Bytes) → Stops room (fgets room file)
unfolding fgets
fgets-Stops zero file = inr (inl refl)
fgets-Stops (suc room) [] = inr (inr refl)
fgets-Stops (suc room) (c ∷ file) = elim (Bool-cases (c == b'\n')) [
  | inl e ↦ rw (e, fgets) (inl e)
  | inr e ↦ rw (e, fgets) (longer (fgets room file) (fgets-Stops room file))
]
  where
    longer : (r : Bytes × Bytes) → Stops room r → Stops (suc room) (c ∷ r.0, r.1)
    longer r (inl h) = inl (ends_line-cons c r.0 h)
    longer r (inr (inl h)) = inr (inl (omega (arith, h)))
    longer r (inr (inr h)) = inr (inr h)

-- What `fgets` reads.
pub record Cut (room : ℕ) (file : Bytes) (r : Bytes × Bytes) : Type 0 where
  pub joins : r.0 ++ r.1 ≡ file
  pub fits : length r.0 ≤ room
  pub line : EndsAtNewline r.0

pub fgets-Cut : (room : ℕ) (file : Bytes) → Cut room file (fgets room file)
unfolding fgets
fgets-Cut zero file = record { joins = refl; fits = omega arith; line = tt }
fgets-Cut (suc room) [] = record { joins = refl; fits = omega arith; line = tt }
fgets-Cut (suc room) (c ∷ file) = elim (Bool-cases (c == b'\n')) [
  | inl e ↦ rw (e, fgets) (record { joins = refl; fits = omega arith; line = tt })
  | inr e ↦
      let k = fgets-Cut room file in
      rw (e, fgets)
        (record {
          joins = ap (λ s. c ∷ s) k.joins;
          fits = omega (arith, k.fits);
          line = EndsAtNewline-cons c (fgets room file).0 (ne_of_test _ _ e) k.line;
        })
]

-- A line is taken from a file that is not empty.
pub fgets-nonempty : (room c : ℕ) (file : Bytes) → 0 < length (fgets (suc room) (c ∷ file)).0
unfolding fgets
fgets-nonempty room c file = elim (Bool-cases (c == b'\n')) [
  | inl e ↦ rw (e, fgets) (omega arith)
  | inr e ↦ rw (e, fgets) (omega arith)
]

-- All lines are read, one after the other.
abbrev pub read_each : Env → Inet → RuleTable → List Bytes → Outcome RuleTable
read_each e net t [] = ret t
read_each e net t (line ∷ lines) = do t' ← read_line e net t line; read_each e net t' lines

abbrev pub joined_lines : List Bytes → Bytes
joined_lines [] = []
joined_lines (line ∷ lines) = line ++ joined_lines lines

-- Every line has a byte at least, fits the buffer, and has its newline at the end.
abbrev pub AreLines : List Bytes → Type 0
AreLines [] = Unit
AreLines (line ∷ lines) =
    (0 < length line)
    × (length line < max_exclude_line_length)
    × EndsAtNewline line
    × AreLines lines

-- Every line but the last has its newline, or fills the buffer of the program.
abbrev pub AreFull : List Bytes → Type 0
AreFull [] = Unit
AreFull (line ∷ []) = Unit
AreFull (line ∷ next ∷ lines) =
    ((ends_line line ≡ true) ⊎ (length line ≡ 99)) × AreFull (next ∷ lines)

AreFull-cons :
    (line rest : Bytes) (lines : List Bytes)
    → Stops 99 (line, rest)
    → joined_lines lines ≡ rest
    → AreLines lines
    → AreFull lines
    → AreFull (line ∷ lines)
AreFull-cons line rest [] s h w f = tt
AreFull-cons line rest (next ∷ lines) (inl s) h w f = (inl s, f)
AreFull-cons line rest (next ∷ lines) (inr (inl s)) h w f = (inr s, f)
AreFull-cons line rest ([] ∷ lines) (inr (inr s)) h w f = absurd (omega (arith, w.0))
AreFull-cons line rest ((c ∷ next) ∷ lines) (inr (inr s)) h w f = cc

-- The bytes of a line before its newline.
abbrev pub before_newline : Bytes → Bytes
before_newline [] = []
before_newline (c ∷ cs) = if c == b'\n' then [] else c ∷ before_newline cs

-- What a line says: nothing if it begins with `#`, otherwise its bytes before the newline, but an empty
-- line its newline.
abbrev pub text_of : Bytes → Bytes
text_of [] = []
text_of (c ∷ []) = c ∷ []
text_of (c ∷ d ∷ cs) = before_newline (c ∷ d ∷ cs)

abbrev pub texts : List Bytes → List Bytes
texts [] = []
texts ([] ∷ lines) = [] ∷ texts lines
texts ((c ∷ cs) ∷ lines) =
    let rest = texts lines in if c == b'#' then rest else text_of (c ∷ cs) ∷ rest

before_newline-cons :
    (c d : ℕ) (cs : Bytes)
    → EndsAtNewline (c ∷ d ∷ cs)
    → before_newline (c ∷ d ∷ cs) ≡ c ∷ before_newline (d ∷ cs)
before_newline-cons c d cs w = elim (Bool-cases (c == b'\n')) [
  | inl e ↦ absurd (w.0 (eq_of_test c _ e))
  | inr e ↦ rw e refl
]

chomp-before_newline : (line : Bytes) → EndsAtNewline line → chomp line ≡ before_newline line
unfolding chomp
chomp-before_newline [] w = refl
chomp-before_newline (c ∷ []) w = refl
chomp-before_newline (c ∷ d ∷ cs) w =
    ap (λ s. c ∷ s) (chomp-before_newline (d ∷ cs) w.1) ∙ sym (before_newline-cons c d cs w)

-- `exclude_add` on one text after the other, whatever its results.
abbrev pub add_each : Env → Inet → RuleTable → List Bytes → Outcome RuleTable
add_each e net t [] = ret t
add_each e net t (text ∷ rest) = do (t', r) ← exclude_add e net t text; add_each e net t' rest

rest_shorter :
    (line rest file : Bytes) (fuel : ℕ)
    → line ++ rest ≡ file
    → 0 < length line
    → length file ≤ suc fuel
    → length rest ≤ fuel
rest_shorter line rest file fuel h k le = omega (arith, length-append line rest, ap length h)

below : (n : ℕ) → n ≤ 99 → n < max_exclude_line_length
below n h = omega arith

long_enough : (n : ℕ) → ltb 1 (suc (suc n)) ≡ true
long_enough n = ground arith

-- A line that is not a comment is added with its text.
read_line_text :
    (e : Env) (net : Inet) (t : RuleTable) (c : ℕ) (cs : Bytes)
    → (c == b'#') ≡ false
    → EndsAtNewline (c ∷ cs)
    → read_line e net t (c ∷ cs) ≡ (do (t', r) ← exclude_add e net t (text_of (c ∷ cs)); ret t')
unfolding read_line
read_line_text e net t c [] h w = rw h refl
read_line_text e net t c (d ∷ cs) h w =
    rw (h, long_enough (length cs))
      (ap (λ s. do (t', r) ← exclude_add e net t s; ret t') (chomp-before_newline (c ∷ d ∷ cs) w))

read_each-add_each :
    (e : Env) (net : Inet) (t : RuleTable) (lines : List Bytes)
    → AreLines lines
    → read_each e net t lines ≡ add_each e net t (texts lines)
unfolding read_line
read_each-add_each e net t [] w = refl
read_each-add_each e net t ([] ∷ lines) w = absurd (omega (arith, w.0))
read_each-add_each e net t ((c ∷ cs) ∷ lines) w = elim (Bool-cases (c == b'#')) [
  | inl h ↦ rw h (read_each-add_each e net t lines w.3)
  | inr h ↦
      ap (λ m. m >>= λ t'. read_each e net t' lines) (read_line_text e net t c cs h w.2)
      ∙ bind_assoc (exclude_add e net t (text_of (c ∷ cs))) _ _
      ∙ rw h (
          bind_same (exclude_add e net t (text_of (c ∷ cs))) _ _
            (λ a. read_each-add_each e net a.0 lines w.3))
]

-- The loop reads one line after the other.
read_lines-read_each :
    (fuel : ℕ) (file : Bytes)
    → length file ≤ fuel
    → (lines : List Bytes) × (joined_lines lines ≡ file)
      × AreLines lines
      × AreFull lines
      × ((e : Env) (net : Inet) (t : RuleTable)
          → read_lines fuel e net t file ≡ read_each e net t lines)
unfolding read_lines
read_lines-read_each zero [] h = ([], refl, tt, tt, λ e net t. refl)
read_lines-read_each zero (c ∷ file) h = absurd (omega arith)
read_lines-read_each (suc fuel) [] h = ([], refl, tt, tt, λ e net t. refl)
read_lines-read_each (suc fuel) (c ∷ file) h =
    let k = fgets-Cut 99 (c ∷ file) in
    let line = (fgets 99 (c ∷ file)).0 in
    let rest = (fgets 99 (c ∷ file)).1 in
    let some_byte = fgets-nonempty 98 c file in
    let shorter : length rest ≤ fuel = rest_shorter line rest _ fuel k.joins some_byte h in
    let (lines, joins, are, full, reads) = read_lines-read_each fuel rest shorter in
    (
      line ∷ lines,
      ap (λ s. line ++ s) joins ∙ k.joins,
      (some_byte, below _ k.fits, k.line, are),
      AreFull-cons line rest lines (fgets-Stops 99 (c ∷ file)) joins are full,
      λ e net t. bind_same (read_line e net t line) _ _ (λ t'. reads e net t'),
    )

-- With fuel for every byte of the file, the loop reads the whole file: the file is cut into lines of one byte at
-- least and 99 at most, with a newline at the end only, and every line but the last has its newline or
-- has 99 bytes. The loop does what `exclude_add` does on the lines that do not begin with `#`, in
-- their order and whatever it returns, each without its newline (a line of one byte as it is).
pub read_lines_enough :
    (fuel : ℕ) (file : Bytes)
    → length file ≤ fuel
    → (lines : List Bytes) × (joined_lines lines ≡ file)
      × AreLines lines
      × AreFull lines
      × ((e : Env) (net : Inet) (t : RuleTable)
          → read_lines fuel e net t file ≡ add_each e net t (texts lines))
read_lines_enough fuel file h =
    let (lines, joins, are, full, reads) = read_lines-read_each fuel file h in
    (lines, joins, are, full, λ e net t. reads e net t ∙ read_each-add_each e net t lines are)
