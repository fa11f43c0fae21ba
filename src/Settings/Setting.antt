-- ===== src/Settings/Setting.antt =====
-- How setting an option of src/cfg.c can end: with numbers in their ranges, by `exit(1)`, or by a failed
-- assertion.
use agentsmith.Base.{
  ℕ, zero, suc, Bool, true, false, List, [], ◌∷◌, ◌≡◌, refl, inl, inr, equal, Bool-cases,
  Option-cases, length,
}
use agentsmith.Base.Outcome.{Outcome, ret, die, aborted, undefined, ◌>>=◌, ◌>>◌, assert}
use agentsmith.Base.Cstring.{Bytes}
use agentsmith.Settings.{Settings}
use agentsmith.Settings.Addresses.{
  Names, words, resolve, resolve_words, max_listen, config_callback_listen, config_callback_inform,
  is_none_yet,
}
use agentsmith.Settings.Options.{
  CfgValue, CfgEntry, cfgcfg, set_value, set_entries, set_config_option,
}
use agentsmith.Settings.Sane.{IsSane, config_sanitize-IsSane}

-- The call returns with the postcondition, exits with code 1, or fails an assertion; nothing is undefined.
abbrev pub Ends : {A : Type 0} → (A → Type 0) → Outcome A → Type 0
Ends P (ret a) = P a
Ends P (die n) = n ≡ 1
Ends P aborted = Unit
Ends P undefined = ⊥

abbrev pub Anything : {A : Type 0} → A → Type 0
Anything a = Unit

pub bind-Ends :
    {A B : Type 0} (P : A → Type 0) (Q : B → Type 0) (m : Outcome A) (f : A → Outcome B)
    → Ends P m
    → ((a : A) → P a → Ends Q (f a))
    → Ends Q (m >>= f)
bind-Ends P Q (ret a) f h k = k a h
bind-Ends P Q (die n) f h k = h
bind-Ends P Q aborted f h k = tt
bind-Ends P Q undefined f h k = absurd h

pub assert-Ends :
    {A : Type 0} (Q : A → Type 0) (b : Bool) (m : Outcome A) → Ends Q m → Ends Q (assert b >> m)
assert-Ends Q true m h = h
assert-Ends Q false m h = tt

resolve_words-Ends :
    (n : Names) (room : ℕ) (ws : List Bytes) → Ends Anything (resolve_words n room ws)
unfolding resolve_words
resolve_words-Ends n zero ws = tt
resolve_words-Ends n (suc room) [] = tt
resolve_words-Ends n (suc room) (w ∷ ws) = elim (Option-cases (resolve n w)) [
  | inl h ↦ rw (h, Ends) (resolve_words-Ends n (suc room) ws)
  | inr (a, h) ↦ elim (Bool-cases n.item) [
    | inl k ↦
        rw (h, k, Ends)
          (bind-Ends Anything Anything (resolve_words n room ws) _ (resolve_words-Ends n room ws)
            (λ x u. tt))
    | inr k ↦ rw (h, k, Ends) refl
  ]
]

-- The callbacks leave the numbers alone.
abbrev pub SameNumbers : Settings → Settings → Type 0
SameNumbers s t = t.numbers ≡ s.numbers

pub listen-Ends :
    (n : Names) (value : Bytes) (s : Settings)
    → Ends (SameNumbers s) (config_callback_listen n value s)
unfolding config_callback_listen
listen-Ends n value s = assert-Ends (SameNumbers s) (is_none_yet s.listen) _ (
    assert-Ends (SameNumbers s) n.copy _ (
      bind-Ends Anything (SameNumbers s) (resolve_words n max_listen (words [] value)) _
        (resolve_words-Ends n max_listen (words [] value)) (λ x u. refl)))

inform-Ends :
    (n : Names) (value : Bytes) (s : Settings)
    → Ends (SameNumbers s) (config_callback_inform n value s)
unfolding config_callback_inform
inform-Ends n value s = assert-Ends (SameNumbers s) (is_none_yet s.inform_agents) _ (
    assert-Ends (SameNumbers s) n.copy _ (
      bind-Ends Anything (SameNumbers s)
        (resolve_words n (length (words [] value)) (words [] value)) _
        (resolve_words-Ends n (length (words [] value)) (words [] value)) (λ x u. refl)))

-- Setting a value ends, for every kind of option in the table.
abbrev Calm : CfgValue → Type 0
Calm v = (n : Names) (value : Bytes) (s : Settings) → Ends Anything (set_value n v value s)

abbrev AllCalm : List CfgEntry → Type 0
AllCalm [] = Unit
AllCalm (e ∷ es) = Calm e.value × AllCalm es

pub weaken-Ends : {A : Type 0} (P : A → Type 0) (m : Outcome A) → Ends P m → Ends Anything m
weaken-Ends P (ret a) h = tt
weaken-Ends P (die n) h = h
weaken-Ends P aborted h = tt
weaken-Ends P undefined h = h

cfgcfg-AllCalm : AllCalm cfgcfg
unfolding cfgcfg set_value
cfgcfg-AllCalm = (
  stored,
  (
    stored,
    (
      stored,
      (
        stored,
        (
          stored,
          (
            stored,
            (
              stored,
              (
                stored,
                (
                  stored,
                  (
                    stored,
                    (
                      stored,
                      (
                        stored,
                        (
                          stored,
                          (
                            stored,
                            (
                              stored,
                              (
                                λ n value s.
                                    weaken-Ends (SameNumbers s) (config_callback_listen n value s)
                                      (listen-Ends n value s),
                                (
                                  λ n value s.
                                      weaken-Ends (SameNumbers s) (config_callback_inform n value s)
                                        (inform-Ends n value s),
                                  (
                                    stored,
                                    (stored, (stored, (stored, (stored, (stored, (stored, tt)))))),
                                  ),
                                ),
                              ),
                            ),
                          ),
                        ),
                      ),
                    ),
                  ),
                ),
              ),
            ),
          ),
        ),
      ),
    ),
  ),
)
  where
    stored : Names → Bytes → Settings → Unit {0}
    stored n value s = tt

set_entries-Ends :
    (n : Names) (es : List CfgEntry) (token value : Bytes) (s : Settings)
    → AllCalm es
    → Ends Anything (set_entries n es token value s)
unfolding set_entries
set_entries-Ends n [] token value s c = tt
set_entries-Ends n (e ∷ es) token value s c = elim (Bool-cases (equal e.name token)) [
  | inl h ↦
      rw (h, Ends)
        (bind-Ends Anything Anything (set_value n e.value value s) _ (c.0 n value s)
          (λ s' u. set_entries-Ends n es token value s' c.1))
  | inr h ↦ rw (h, Ends) (set_entries-Ends n es token value s c.1)
]

abbrev pub HasSane : Settings → Type 0
HasSane s = IsSane s.numbers

-- Whatever name and value a line gives, `_set_config_option` returns with every number in its range, exits
-- with code 1, or fails the assertion on a list that is given twice.
pub set_config_option-Ends :
    (n : Names) (token value : Bytes) (s : Settings)
    → Ends HasSane (set_config_option n token value s)
unfolding set_config_option
set_config_option-Ends n token value s =
    bind-Ends Anything HasSane (set_entries n cfgcfg token value s) _
      (set_entries-Ends n cfgcfg token value s cfgcfg-AllCalm)
      (λ s' u. config_sanitize-IsSane s'.numbers)
