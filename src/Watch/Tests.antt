-- ===== src/Watch/Tests.antt =====
-- A run of src/regex.c on a line that is an address, with an empty exclude list.
use agentsmith.Base.{true, false, [], ◌∷◌, ◌++◌, ◌≡◌, refl, inr, arith}
use agentsmith.Base.Outcome.{ret}
use agentsmith.Base.Cstring.{c_str}
use agentsmith.Slots.{unstarted, start}
use agentsmith.Slots.Layout.{start-IsLaidOut}
use agentsmith.Samples.{
  numbers, address, attacked, attacked-IsValid, known, line_env, parsed, address-IsAddress,
}
use agentsmith.Watch.{Pcre, Store, regex_do}
use agentsmith.Watch.Matching.{Seen, regex_do-Seen}

-- Whatever the text, the first seven bytes match.
abbrev seven : Pcre
seven = record {
  compiles = true;
  studies = true;
  fullinfo = 0;
  capturecount = 1;
  exec = λ text. (2, 0, 7);
}

abbrev first_line : Store
first_line = record { vector = attacked; rules = start unstarted; compiled = false }

regex_do-Seen_example :
    (t : Store) × (regex_do seven numbers known line_env first_line (address ++ 10 ∷ []) ≡ ret t)
    × Seen numbers known line_env first_line t address parsed
unfolding c_str unstarted
regex_do-Seen_example =
    regex_do-Seen seven numbers known line_env first_line (address ++ 10 ∷ []) 0 7 parsed
      (inr (refl, refl, refl, refl)) attacked-IsValid (start-IsLaidOut unstarted refl refl) refl
      (omega arith) (omega arith) address-IsAddress
