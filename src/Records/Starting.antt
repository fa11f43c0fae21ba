-- ===== src/Records/Starting.antt =====
-- `records_init` of src/records.c: the vector starts out valid and empty.
use agentsmith.Base.{
  ℕ, zero, suc, Bool, ◌&&◌, none, ◌==◌, ◌≡◌, refl, Bool-cases, inl, inr, replicate,
}
use agentsmith.Base.Outcome.{ReturnsOrExits}
use agentsmith.Base.Cstring.{Bytes}
use agentsmith.Slots.{chunk, unstarted, start}
use agentsmith.Slots.Unique.{lookup, IsUnique}
use agentsmith.Slots.Layout.{start-IsLaidOut}
use agentsmith.Records.{records_init}
use agentsmith.Records.Lookup.{key, view, IsValid}

pub IsUnique-replicate : (n : ℕ) → IsUnique key (replicate n none)
IsUnique-replicate zero = tt
IsUnique-replicate (suc n) = IsUnique-replicate n

pub lookup-replicate : (j : Bytes) (n : ℕ) → lookup key j (replicate n none) ≡ none
lookup-replicate j zero = refl
lookup-replicate j (suc n) = lookup-replicate j n

-- On the statics as the program starts, `records_init` passes its assertion. It exits with code 3, when
-- memory or the mutex is missing, or the vector is valid and no address has a record.
pub records_init-IsValid :
    (calloc : Bool) (mutex : ℕ)
    → ReturnsOrExits
        (λ v. IsValid v × ((j : Bytes) → view v j ≡ none))
        (records_init calloc mutex unstarted)
unfolding records_init start unstarted
records_init-IsValid calloc mutex = elim (Bool-cases (calloc && mutex == 0)) [
  | inl h ↦ rw h (
    record { laid_out = start-IsLaidOut unstarted refl refl; unique = IsUnique-replicate chunk },
    λ j. lookup-replicate j chunk,
  )
  | inr h ↦ rw h refl
]
