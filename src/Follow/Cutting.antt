-- ===== src/Follow/Cutting.antt =====
-- `readtoeof` of src/follow.c on a text that is made of lines.
use agentsmith.Base.{
  ℕ, ◌+◌, ◌-◌, ◌<◌, List, [], ◌∷◌, ◌++◌, none, some, ◌==◌, ◌≡◌, ◌≢◌, refl, ◌∙◌, ap, sym, ◌⊎◌, inl,
  inr, arith, Bool-cases, length, length-append, append_assoc, append-nil,
}
use agentsmith.Base.Outcome.{Outcome, ret, ◌>>=◌, bind_same, bind_assoc}
use agentsmith.Base.Cstring.{Bytes}
use agentsmith.Watch.{buffsize}
use agentsmith.Follow.{put_byte, do_line, readtoeof}
use agentsmith.Follow.Lines.{NoNewline, IsPartial, IsLine, AllLines, concat_lines, do_lines}

put_byte-more :
    (buff : Bytes) (c : ℕ)
    → c ≢ b'\n'
    → length buff + 1 < buffsize - 1
    → put_byte buff c ≡ (none, buff ++ c ∷ [])
unfolding put_byte
put_byte-more buff c n room = ground (arith, length-append buff (c ∷ []))

put_byte-end :
    (buff : Bytes) (c : ℕ)
    → (c ≡ b'\n') ⊎ (length (buff ++ c ∷ []) ≡ buffsize - 1)
    → put_byte buff c ≡ (some (buff ++ c ∷ []), [])
unfolding put_byte
put_byte-end buff c (inl h) = elim (Bool-cases (length (buff ++ c ∷ []) == buffsize - 1)) [
  | inl e ↦ rw e refl
  | inr e ↦ rw (e, h) refl
]
put_byte-end buff c (inr h) = rw h refl

module _ {S : Type 0} (h : S → Bytes → Outcome S) where
  -- Bytes before the end of a line are only stored.
  readtoeof-front :
      (front cs buff : Bytes) (s : S)
      → NoNewline front
      → length buff + length front < buffsize - 1
      → readtoeof h buff s (front ++ cs) ≡ readtoeof h (buff ++ front) s cs
  unfolding readtoeof do_line
  readtoeof-front [] cs buff s n room = rw (append-nil buff) refl
  readtoeof-front (c ∷ front) cs buff s n room = rw (put_byte-more buff c n.0 (omega arith)) (
      readtoeof-front front cs (buff ++ c ∷ []) s n.1 (omega (arith, length-append buff (c ∷ [])))
      ∙ ap (λ b. readtoeof h b s cs) (append_assoc buff (c ∷ []) front))

  readtoeof-line :
      (line cs : Bytes) (s : S)
      → IsLine line
      → readtoeof h [] s (line ++ cs) ≡ (do s' ← h s line; readtoeof h [] s' cs)
  unfolding readtoeof do_line
  readtoeof-line line cs s w =
      rw (w.parts, append_assoc w.front (w.last ∷ []) cs)
        (readtoeof-front w.front (w.last ∷ cs) [] s w.one_newline (omega (arith, w.fits, size))
          ∙ rw (put_byte-end w.front w.last (ended w.ended)) refl)
    where
      size : length line ≡ length w.front + 1
      size = ap length w.parts ∙ length-append w.front (w.last ∷ [])

      ended :
          (w.last ≡ b'\n') ⊎ (length line ≡ buffsize - 1)
          → (w.last ≡ b'\n') ⊎ (length (w.front ++ w.last ∷ []) ≡ buffsize - 1)
      ended (inl e) = inl e
      ended (inr e) = inr (ap length (sym w.parts) ∙ e)

  -- Lines, and the start of one more, are handed on as they are.
  pub readtoeof-concat_lines :
      (lines : List Bytes) (rest : Bytes) (s : S)
      → AllLines lines
      → IsPartial rest
      → readtoeof h [] s (concat_lines lines ++ rest) ≡ (do s' ← do_lines h s lines; ret (rest, s'))
  unfolding readtoeof
  readtoeof-concat_lines [] rest s w p =
      ap (readtoeof h [] s) (sym (append-nil rest))
      ∙ readtoeof-front rest [] [] s p.open_line (omega (arith, p.fits))
  readtoeof-concat_lines (line ∷ lines) rest s w p =
      ap (readtoeof h [] s) (append_assoc line (concat_lines lines) rest)
      ∙ readtoeof-line line (concat_lines lines ++ rest) s w.0
      ∙ bind_same (h s line) _ _ (λ s'. readtoeof-concat_lines lines rest s' w.1 p)
      ∙ sym (bind_assoc (h s line) _ _)
