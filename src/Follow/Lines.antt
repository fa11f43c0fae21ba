-- ===== src/Follow/Lines.antt =====
-- `readtoeof` of src/follow.c cuts what it reads into lines, and it does not matter in what portions it
-- reads.
use agentsmith.Base.{
  ℕ, ◌+◌, ◌-◌, ◌<◌, false, List, [], ◌∷◌, ◌++◌, none, some, ◌==◌, ◌≡◌, ◌≢◌, refl, sym, ap, ◌∙◌, ◌⊎◌,
  inl, inr, arith, Bool-cases, eq_of_test, ne_of_test, length, length-append, append-nil,
  append_assoc,
}
use agentsmith.Base.Outcome.{Outcome, ret, ◌>>=◌, bind_same, bind_assoc}
use agentsmith.Base.Cstring.{Bytes}
use agentsmith.Watch.{buffsize}
use agentsmith.Follow.{put_byte, do_line, readtoeof}

abbrev pub NoNewline : Bytes → Type 0
NoNewline [] = Unit
NoNewline (c ∷ cs) = (c ≢ b'\n') × NoNewline cs

NoNewline-snoc : (b : Bytes) (c : ℕ) → NoNewline b → c ≢ b'\n' → NoNewline (b ++ c ∷ [])
NoNewline-snoc [] c n h = (h, tt)
NoNewline-snoc (x ∷ b) c n h = (n.0, NoNewline-snoc b c n.1 h)

-- What the buffer holds between two bytes.
pub record IsPartial (buff : Bytes) : Type 0 where
  pub fits : length buff < buffsize - 1
  pub open_line : NoNewline buff

-- A line that is handed on: it ends with the first newline, or fills the buffer without one before
-- its last byte.
pub record IsLine (line : Bytes) : Type 0 where
  pub front : Bytes
  pub last : ℕ
  pub parts : line ≡ front ++ last ∷ []
  pub one_newline : NoNewline front
  pub fits : length line < buffsize
  pub ended : (last ≡ b'\n') ⊎ (length line ≡ buffsize - 1)

abbrev pub AllLines : List Bytes → Type 0
AllLines [] = Unit
AllLines (line ∷ lines) = IsLine line × AllLines lines

abbrev pub concat_lines : List Bytes → Bytes
concat_lines [] = []
concat_lines (line ∷ lines) = line ++ concat_lines lines

abbrev pub do_lines : {S : Type 0} → (S → Bytes → Outcome S) → S → List Bytes → Outcome S
do_lines h s [] = ret s
do_lines h s (line ∷ lines) = do s' ← h s line; do_lines h s' lines

module _ {S : Type 0} (h : S → Bytes → Outcome S) where
  -- The bytes that are read are cut into lines.
  pub record Read (buff cs : Bytes) : Type 0 where
    pub lines : List Bytes
    pub rest : Bytes
    pub lossless : concat_lines lines ++ rest ≡ buff ++ cs
    pub are_lines : AllLines lines
    pub partial : IsPartial rest
    pub handles : (s : S) → readtoeof h buff s cs ≡ (do s' ← do_lines h s lines; ret (rest, s'))

  emitted :
      (buff cs : Bytes) (c : ℕ)
      → IsLine (buff ++ c ∷ [])
      → put_byte buff c ≡ (some (buff ++ c ∷ []), [])
      → Read [] cs
      → Read buff (c ∷ cs)
  unfolding readtoeof
  emitted buff cs c w p r = record {
    lines = (buff ++ c ∷ []) ∷ r.lines;
    rest = r.rest;
    lossless =
        append_assoc (buff ++ c ∷ []) (concat_lines r.lines) r.rest
        ∙ ap (λ x. (buff ++ c ∷ []) ++ x) r.lossless
        ∙ append_assoc buff (c ∷ []) cs;
    are_lines = (w, r.are_lines);
    partial = r.partial;
    handles = λ s.
        rw (p, do_line)
          (bind_same (h s (buff ++ c ∷ [])) _ _ r.handles
            ∙ sym (
                bind_assoc (h s (buff ++ c ∷ [])) (λ s'. do_lines h s' r.lines)
                  (λ s'. ret (r.rest, s'))));
  }

  extended :
      (buff cs : Bytes) (c : ℕ)
      → put_byte buff c ≡ (none, buff ++ c ∷ [])
      → Read (buff ++ c ∷ []) cs
      → Read buff (c ∷ cs)
  unfolding readtoeof
  extended buff cs c p r = record {
    lines = r.lines;
    rest = r.rest;
    lossless = r.lossless ∙ append_assoc buff (c ∷ []) cs;
    are_lines = r.are_lines;
    partial = r.partial;
    handles = λ s. rw (p, do_line) (r.handles s);
  }

  -- From a partial line on, `readtoeof` hands on the lines of what it holds and reads, one after the other,
  -- and keeps the partial line behind them; no byte is lost, added or moved.
  pub readtoeof-Read : (buff cs : Bytes) → IsPartial buff → Read buff cs
  unfolding readtoeof put_byte do_line
  readtoeof-Read buff [] w = record {
    lines = [];
    rest = buff;
    lossless = sym (append-nil buff);
    are_lines = tt;
    partial = w;
    handles = λ s. refl;
  }
  readtoeof-Read buff (c ∷ cs) w = elim (Bool-cases (length (buff ++ c ∷ []) == buffsize - 1)) [
    | inl full ↦
        emitted buff cs c (line (inr (eq_of_test _ _ full))) (rw (full, put_byte))
          (readtoeof-Read [] cs empty)
    | inr room ↦ elim (Bool-cases (c == b'\n')) [
      | inl end ↦
          emitted buff cs c (line (inl (eq_of_test _ _ end))) (rw (room, end, put_byte))
            (readtoeof-Read [] cs empty)
      | inr more ↦
          extended buff cs c (rw (room, more, put_byte))
            (readtoeof-Read (buff ++ c ∷ []) cs (longer room more))
    ]
  ]
    where
      size : length (buff ++ c ∷ []) ≡ length buff + 1
      size = length-append buff (c ∷ [])

      empty : IsPartial []
      empty = record { fits = omega arith; open_line = tt }

      line : (c ≡ b'\n') ⊎ (length (buff ++ c ∷ []) ≡ buffsize - 1) → IsLine (buff ++ c ∷ [])
      line e = record {
        front = buff;
        last = c;
        parts = refl;
        one_newline = w.open_line;
        fits = omega (arith, w.fits, size);
        ended = e;
      }

      longer :
          (length (buff ++ c ∷ []) == buffsize - 1) ≡ false
          → (c == b'\n') ≡ false
          → IsPartial (buff ++ c ∷ [])
      longer room more = record {
        fits = omega (arith, w.fits, size, ne_of_test _ _ room);
        open_line = NoNewline-snoc buff c w.open_line (ne_of_test _ _ more);
      }

  pub readtoeof-append :
      (buff xs ys : Bytes) (s : S)
      → readtoeof h buff s (xs ++ ys) ≡ (do (b, s') ← readtoeof h buff s xs; readtoeof h b s' ys)
  unfolding readtoeof
  readtoeof-append buff [] ys s = refl
  readtoeof-append buff (c ∷ xs) ys s =
      bind_same (do_line h s (put_byte buff c).0) _ _
        (λ s'. readtoeof-append (put_byte buff c).1 xs ys s')
      ∙ sym (bind_assoc (do_line h s (put_byte buff c).0) _ _)
