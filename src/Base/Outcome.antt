-- ===== src/Base/Outcome.antt =====
-- How a call of a C function ends, and what the system answers to it.
use Prim.Native.Nat.{ℕ}
use mathlib.Core.Bool.{Bool, true, false}
use mathlib.Core.Path.{◌≡◌, refl}
use mathlib.Core.Logic.{inl, inr}
use agentsmith.Base.Tests.{◌==◌, if◌then◌else◌, Bool-cases}

-- The call returns, calls `exit` with a code, fails an `assert`, or has undefined behaviour.
pub data Outcome {ℓ} (A : Type ℓ) : Type ℓ where
  ret : A → Outcome A
  die : ℕ → Outcome A
  aborted : Outcome A
  undefined : Outcome A

infixl 5 ◌>>=◌ ◌>>◌
abbrev pub ◌>>=◌ {ℓ κ} : {A : Type ℓ} {B : Type κ} → Outcome A → (A → Outcome B) → Outcome B
ret a >>= f = f a
die n >>= f = die n
aborted >>= f = aborted
undefined >>= f = undefined

abbrev pub ◌>>◌ {ℓ} : {B : Type ℓ} → Outcome (Unit {0}) → Outcome B → Outcome B
m >> k = m >>= λ _. k

abbrev pub assert : Bool → Outcome (Unit {0})
assert b = if b then ret tt else aborted

-- RETVAL_OK and RETVAL_ERR of globals.h.
pub data Retval : Type 0 where
  ok err : Retval

-- What the system answers during one call: the results of `pthread_mutex_lock` and of
-- `pthread_mutex_unlock` (0 is success), whether memory is found by the `malloc` of a record, by
-- that of the copy of an address, and by `realloc`, and the clock, as the bit pattern of a 64-bit `time_t`.
pub record Env : Type 0 where
  pub lock : ℕ
  pub unlock : ℕ
  pub malloc : Bool
  pub copy : Bool
  pub realloc : Bool
  pub now : ℕ

-- A function that does its work under a mutex: no work when the lock fails, and an error when the
-- unlock fails.
unfoldable pub locked : {S : Type 0} → Env → S → Outcome (S × Retval) → Outcome (S × Retval)
locked e s body =
    if e.lock == 0
    then (do (s', r) ← body; ret (s', if e.unlock == 0 then r else err))
    else ret (s, err)

-- The call does return, and the postcondition holds of its result.
abbrev pub Returns : {A : Type 0} → Outcome A → (A → Type 0) → Type 0
Returns (ret a) P = P a
Returns (die n) P = ⊥
Returns aborted P = ⊥
Returns undefined P = ⊥

-- The call returns with the postcondition, or ends the program by `exit(3)`: it fails no `assert`
-- and has no undefined behaviour.
abbrev pub ReturnsOrExits : {A : Type 0} → (A → Type 0) → Outcome A → Type 0
ReturnsOrExits P (ret a) = P a
ReturnsOrExits P (die n) = n ≡ 3
ReturnsOrExits P aborted = ⊥
ReturnsOrExits P undefined = ⊥

pub bind-ReturnsOrExits :
    {A B : Type 0} (P : A → Type 0) (Q : B → Type 0) (m : Outcome A) (f : A → Outcome B)
    → ReturnsOrExits P m
    → ((a : A) → P a → ReturnsOrExits Q (f a))
    → ReturnsOrExits Q (m >>= f)
bind-ReturnsOrExits P Q (ret a) f h k = k a h
bind-ReturnsOrExits P Q (die n) f h k = h
bind-ReturnsOrExits P Q aborted f h k = absurd h
bind-ReturnsOrExits P Q undefined f h k = absurd h

-- Under the mutex: the postcondition is that of the body, and has to hold too where the lock fails
-- and nothing is done, and where a failing unlock turns the result into an error.
pub locked-ReturnsOrExits :
    {S : Type 0} (e : Env) (s : S) (body : Outcome (S × Retval)) (P : S × Retval → Type 0)
    → P (s, err)
    → ((t : S) (r : Retval) → P (t, r) → P (t, err))
    → ReturnsOrExits P body
    → ReturnsOrExits P (locked e s body)
unfolding locked
locked-ReturnsOrExits e s body P h fail k = elim (Bool-cases (e.lock == 0)) [
  | inr l ↦ rw (l, locked) h
  | inl l ↦
      rw (l, locked)
        (bind-ReturnsOrExits P P body _ k (λ (t, r) p. elim (Bool-cases (e.unlock == 0)) [
          | inl u ↦ rw u p
          | inr u ↦ rw u (fail t r p)
        ]))
]

pub locked_served :
    {S : Type 0} (e : Env) (s t : S) (r : Retval) (body : Outcome (S × Retval))
    → e.lock ≡ 0
    → e.unlock ≡ 0
    → body ≡ ret (t, r)
    → locked e s body ≡ ret (t, r)
unfolding locked
locked_served e s t r body a b h = rw (a, b, h, locked)

pub assert_holds {ℓ} : {A : Type ℓ} (b : Bool) (m : Outcome A) → b ≡ true → (assert b >> m) ≡ m
assert_holds true m h = refl
assert_holds false m h = cc

pub locked_same :
    {S : Type 0} (e : Env) (s : S) (body : Outcome (S × Retval))
    → e.lock ≡ 0
    → e.unlock ≡ 0
    → locked e s body ≡ body
unfolding locked
locked_same e s (ret (t, r)) a b = rw (a, b, locked)
locked_same e s (die n) a b = rw (a, locked)
locked_same e s aborted a b = rw (a, locked)
locked_same e s undefined a b = rw (a, locked)

pub bind_same {ℓ κ} :
    {A : Type ℓ} {B : Type κ} (m : Outcome A) (f g : A → Outcome B)
    → ((a : A) → f a ≡ g a)
    → (m >>= f) ≡ (m >>= g)
bind_same (ret a) f g h = h a
bind_same (die n) f g h = refl
bind_same aborted f g h = refl
bind_same undefined f g h = refl

pub bind_assoc {ℓ κ μ} :
    {A : Type ℓ} {B : Type κ} {C : Type μ} (m : Outcome A) (f : A → Outcome B) (g : B → Outcome C)
    → ((m >>= f) >>= g) ≡ (m >>= λ a. f a >>= g)
bind_assoc (ret a) f g = refl
bind_assoc (die n) f g = refl
bind_assoc aborted f g = refl
bind_assoc undefined f g = refl

pub bind_ret {ℓ} : {A : Type ℓ} (m : Outcome A) → (m >>= λ a. ret a) ≡ m
bind_ret (ret a) = refl
bind_ret (die n) = refl
bind_ret aborted = refl
bind_ret undefined = refl

-- If the call returns, the postcondition holds.
abbrev pub IfReturns : {A : Type 0} → (A → Type 0) → Outcome A → Type 0
IfReturns P (ret a) = P a
IfReturns P (die n) = Unit
IfReturns P aborted = Unit
IfReturns P undefined = Unit

pub bind-IfReturns :
    {A B : Type 0} (P : A → Type 0) (Q : B → Type 0) (m : Outcome A) (f : A → Outcome B)
    → IfReturns P m
    → ((a : A) → P a → IfReturns Q (f a))
    → IfReturns Q (m >>= f)
bind-IfReturns P Q (ret a) f h k = k a h
bind-IfReturns P Q (die n) f h k = tt
bind-IfReturns P Q aborted f h k = tt
bind-IfReturns P Q undefined f h k = tt

pub assert-IfReturns :
    {A : Type 0} (P : A → Type 0) (b : Bool) (m : Outcome A)
    → IfReturns P m
    → IfReturns P (assert b >> m)
assert-IfReturns P true m h = h
assert-IfReturns P false m h = tt

pub ReturnsOrExits-IfReturns :
    {A : Type 0} (P : A → Type 0) (m : Outcome A) → ReturnsOrExits P m → IfReturns P m
ReturnsOrExits-IfReturns P (ret a) h = h
ReturnsOrExits-IfReturns P (die n) h = tt
ReturnsOrExits-IfReturns P aborted h = tt
ReturnsOrExits-IfReturns P undefined h = tt

pub weaken-IfReturns :
    {A : Type 0} (P Q : A → Type 0) (m : Outcome A)
    → ((a : A) → P a → Q a)
    → IfReturns P m
    → IfReturns Q m
weaken-IfReturns P Q (ret a) f h = f a h
weaken-IfReturns P Q (die n) f h = tt
weaken-IfReturns P Q aborted f h = tt
weaken-IfReturns P Q undefined f h = tt

pub anything : {A : Type 0} (m : Outcome A) → IfReturns (λ a. Unit) m
anything (ret a) = tt
anything (die n) = tt
anything aborted = tt
anything undefined = tt

pub self-IfReturns : {A : Type 0} (m : Outcome A) → IfReturns (λ a. m ≡ ret a) m
self-IfReturns (ret a) = refl
self-IfReturns (die n) = tt
self-IfReturns aborted = tt
self-IfReturns undefined = tt

-- Whatever the call may do, that it has returned gives the postcondition.
pub returned :
    {A : Type 0} (P : A → Type 0) (m : Outcome A) {a : A} → m ≡ ret a → IfReturns P m → P a
returned P m h k = rw h at k

pub locked-IfReturns :
    {S : Type 0} (e : Env) (s : S) (body : Outcome (S × Retval)) (P : S → Type 0)
    → P s
    → IfReturns (λ (t, r). P t) body
    → IfReturns (λ (t, r). P t) (locked e s body)
unfolding locked
locked-IfReturns e s body P h k = elim (Bool-cases (e.lock == 0)) [
  | inr l ↦ rw (l, locked) h
  | inl l ↦ rw (l, locked) (bind-IfReturns (λ (t, r). P t) (λ (t, r). P t) body _ k (λ (t, r) p. p))
]

-- The call fails no assertion.
abbrev pub Passes : {A : Type 0} → Outcome A → Type 0
Passes (ret a) = Unit
Passes (die n) = Unit
Passes aborted = ⊥
Passes undefined = Unit

pub bind-Passes :
    {A B : Type 0} (P : A → Type 0) (m : Outcome A) (f : A → Outcome B)
    → Passes m
    → IfReturns P m
    → ((a : A) → P a → Passes (f a))
    → Passes (m >>= f)
bind-Passes P (ret a) f h k g = g a k
bind-Passes P (die n) f h k g = tt
bind-Passes P aborted f h k g = absurd h
bind-Passes P undefined f h k g = tt

pub ReturnsOrExits-Passes :
    {A : Type 0} (P : A → Type 0) (m : Outcome A) → ReturnsOrExits P m → Passes m
ReturnsOrExits-Passes P (ret a) h = tt
ReturnsOrExits-Passes P (die n) h = tt
ReturnsOrExits-Passes P aborted h = absurd h
ReturnsOrExits-Passes P undefined h = tt
