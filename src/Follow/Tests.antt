-- ===== src/Follow/Tests.antt =====
-- Runs of src/follow.c in which the lines are collected.
use agentsmith.Base.{true, false, List, [], ◌∷◌, ◌++◌, some, ◌≡◌, refl, inr, arith}
use agentsmith.Base.Outcome.{Outcome, ret, ◌>>=◌}
use agentsmith.Base.Cstring.{Bytes}
use agentsmith.Slots.{start, unstarted}
use agentsmith.Slots.Layout.{start-IsLaidOut}
use agentsmith.Records.Lookup.{view}
use agentsmith.Watch.{Store, count}
use agentsmith.Samples.{
  numbers, attacked, attacked-IsValid, known, address_line, other_line, portions, one_line, every,
  lines-AllLines, lines-AllCountable,
}
use agentsmith.Follow.Counted.{count_lines, Holds, follow_rounds-Holds}
use agentsmith.Follow.{readtoeof, follow_start, follow_rounds}
use agentsmith.Follow.Lines.{Read, concat_lines, readtoeof-Read}
use agentsmith.Follow.Growth.{at, growing, follow_rounds-growing}

abbrev collect : List Bytes → Bytes → Outcome (List Bytes)
collect lines line = ret (lines ++ line ∷ [])

-- A line, the start of a second one, and its end.
abbrev first : Bytes
first = b'a' ∷ b'\n' ∷ b'b' ∷ []

abbrev second : Bytes
second = b'c' ∷ b'\n' ∷ b'd' ∷ []

readtoeof-Read_example : Read collect (b'x' ∷ []) first
readtoeof-Read_example =
    readtoeof-Read collect (b'x' ∷ []) first
      (record { fits = omega arith; open_line = (omega arith, tt) })

follow_rounds-growing_example :
    (do
      f ← follow_start true (some (3, 7)) true []
      follow_rounds collect (growing true first (second ∷ [] ∷ first ∷ [])) f [])
    ≡ (do
      (b, s) ← readtoeof collect [] [] (second ++ first)
      ret (at 7 (first ++ (second ++ first)) b, s))
follow_rounds-growing_example =
    follow_rounds-growing collect true 7 first (second ∷ [] ∷ first ∷ []) []

abbrev log_store : Store
log_store = record { vector = attacked; rules = start unstarted; compiled = false }

log_store-Holds : Holds one_line numbers known every (start unstarted) (view attacked) log_store
log_store-Holds = record {
  refines = record { valid = attacked-IsValid; holds = λ j. refl };
  same_rules = refl;
  ready = inr (refl, refl, refl, refl);
}

follow_rounds-Holds_example :
    (t : Store) × ((do
      f ← follow_start true (some (3, 7)) true []
      follow_rounds
          (count one_line numbers known every)
          (growing true first portions)
          f
          (0, log_store))
      ≡ ret (at 7 (first ++ concat_lines portions) (b'y' ∷ []), (2, t)))
    × Holds one_line numbers known every
        (start unstarted)
        (count_lines one_line numbers known every
          (start unstarted)
          0
          (address_line ∷ other_line ∷ [])
          (view attacked))
        t
unfolding unstarted
follow_rounds-Holds_example =
    follow_rounds-Holds one_line numbers known every (start unstarted) true 7 first (b'y' ∷ [])
      portions (address_line ∷ other_line ∷ []) (view attacked) log_store refl lines-AllLines
      (record { fits = omega arith; open_line = (omega arith, tt) })
      (start-IsLaidOut unstarted refl refl) lines-AllCountable log_store-Holds
