-- ===== src/Follow/Growth.antt =====
-- `follow` of src/follow.c on a log that grows: every byte that is appended is read once, in order.
use agentsmith.Base.{
  ℕ, Bool, true, false, List, [], ◌∷◌, ◌++◌, some, ◌==◌, ltb, ◌≡◌, refl, sym, ap, ◌∙◌, arith,
  length, length-append, append-nil, append_assoc, drop-append,
}
use agentsmith.Base.Outcome.{Outcome, ret, ◌>>=◌, bind_same, bind_assoc}
use agentsmith.Base.Cstring.{Bytes}
use agentsmith.Follow.{
  readtoeof, Following, RoundEnv, follow_start, reopen, read_on, read_new, follow_round,
  follow_rounds,
}
use agentsmith.Follow.Lines.{concat_lines, readtoeof-append}

-- The file has been read up to the end of a content.
abbrev pub at : ℕ → Bytes → Bytes → Following
at ino content buff = record {
  opened = true;
  offset = length content;
  lastpos = length content;
  curino = ino;
  lastino = ino;
  buff = buff;
}

-- The rounds on a file that has grown by a portion, which may be empty, before each of them.
abbrev pub growing : Bool → Bytes → List Bytes → List RoundEnv
growing opens content [] = []
growing opens content (x ∷ xs) =
    record { stat = some (length (content ++ x)); opens = opens; content = content ++ x }
    ∷ growing opens (content ++ x) xs

reopen-at :
    (opens : Bool) (ino : ℕ) (content b : Bytes)
    → reopen opens (at ino content b) ≡ at ino content b
unfolding reopen
reopen-at opens ino content b = rw (same ino)
  where
    same : (n : ℕ) → (n == n) ≡ true
    same n = ground arith

module _ {S : Type 0} (h : S → Bytes → Outcome S) (opens : Bool) (ino : ℕ) where
  -- A portion is read.
  read_portion :
      (content x b : Bytes) (s : S)
      → read_on h (at ino content b) s (content ++ x) (length (content ++ x))
        ≡ (do (b', s') ← readtoeof h b s x; ret (at ino (content ++ x) b', s'))
  unfolding read_on
  read_portion content x b s =
      rw (drop-append (length content) content x refl, sym (length-append content x)) refl

  grown_round :
      (content x b : Bytes) (s : S)
      → follow_round h
          (record { stat = some (length (content ++ x)); opens = opens; content = content ++ x })
          (at ino content b)
          s
        ≡ (do (b', s') ← readtoeof h b s x; ret (at ino (content ++ x) b', s'))
  unfolding follow_round read_new readtoeof
  grown_round content [] b s =
      rw (reopen-at opens ino content b, append-nil content, not_less (length content)) refl
    where
      not_less : (n : ℕ) → ltb n n ≡ false
      not_less n = ground arith
  grown_round content (c ∷ x) b s =
      rw (reopen-at opens ino content b, longer) (read_portion content (c ∷ x) b s)
    where
      longer : ltb (length content) (length (content ++ c ∷ x)) ≡ true
      longer = ground (arith, length-append content (c ∷ x))

  rounds-at :
      (content : Bytes) (xs : List Bytes) (b : Bytes) (s : S)
      → follow_rounds h (growing opens content xs) (at ino content b) s ≡ (do
        (b', s') ← readtoeof h b s (concat_lines xs)
        ret (at ino (content ++ concat_lines xs) b', s'))
  unfolding follow_rounds readtoeof
  rounds-at content [] b s = rw (append-nil content) refl
  rounds-at content (x ∷ xs) b s =
      rw (grown_round content x b s, readtoeof-append h b x (concat_lines xs) s)
        (bind_assoc (readtoeof h b s x) _ _
          ∙ bind_same (readtoeof h b s x) _ _ (λ (b', s').
            rounds-at (content ++ x) xs b' s'
            ∙ ap (λ z. readtoeof h b' s' (concat_lines xs) >>= λ r. ret (at ino z r.0, r.1))
                (append_assoc content x (concat_lines xs)))
          ∙ sym (bind_assoc (readtoeof h b s x) _ _))

  -- `follow` opens a file that is there, skips its content and then reads exactly what is appended, in
  -- whatever portions it grows between the rounds: the lines are those of one reading of all of it,
  -- and the offset is at the end.
  pub follow_rounds-growing :
      (content : Bytes) (xs : List Bytes) (s : S)
      → (do
        f ← follow_start true (some (length content, ino)) true []
        follow_rounds h (growing opens content xs) f s)
        ≡ (do
          (b, s') ← readtoeof h [] s (concat_lines xs)
          ret (at ino (content ++ concat_lines xs) b, s'))
  unfolding follow_start
  follow_rounds-growing content xs s = rounds-at content xs [] s
