-- ===== src/Host/Update/Thread.antt =====
-- The control flow of a function of the thread: state, early returns and rounds.
use fw_bootloader.Common.{◌≡◌, refl, Bool, true, false, Option, none, some}
use fw_bootloader.Common.Memory.{Result, ok, fault}

-- How a function of the thread ends: it accesses memory that is not its own, its rounds are used up, it
-- returns false, or it returns its result.
pub data Outcome (D A : Type 0) : Type 0 where
  faulted : Outcome D A
  running : Outcome D A
  failed : D → Outcome D A
  done : A → D → Outcome D A

abbrev pub Host : Type 0 → Type 0 → Type 0
Host D A = D → Outcome D A

-- What comes after a function: nothing, if it returns false.
abbrev pub go_on : {D A B : Type 0} → Outcome D A → (A → Host D B) → Outcome D B
go_on faulted next = faulted
go_on running next = running
go_on (failed d) next = failed d
go_on (done a d) next = next a d

infixl 5 ◌>>=◌ ◌>>◌
abbrev pub ◌>>=◌ : {D A B : Type 0} → Host D A → (A → Host D B) → Host D B
◌>>=◌ m next d = go_on (m d) next

abbrev pub ◌>>◌ : {D B : Type 0} → Host D (Unit {0}) → Host D B → Host D B
m >> rest = m >>= λ _. rest

abbrev pub return : {D A : Type 0} → A → Host D A
return a d = done a d

-- A result that is false without a value.
abbrev pub require : {D A : Type 0} → Result (Option A) → Host D A
require fault d = faulted
require (ok none) d = failed d
require (ok (some a)) d = done a d

abbrev pub compute : {D A : Type 0} → Result A → Host D A
compute fault d = faulted
compute (ok a) d = done a d

abbrev pub guard : {D : Type 0} → Bool → Host D (Unit {0})
guard true d = done tt d
guard false d = failed d

abbrev pub out_of_rounds : {D A : Type 0} → Host D A
out_of_rounds d = running

-- `if (!m) { emit infoError(...); }` without a return.
abbrev pub go_on_anyway : {D : Type 0} → Host D (Unit {0}) → Host D (Unit {0})
go_on_anyway m d = elim (m d) [
  | faulted ↦ faulted
  | running ↦ running
  | failed d' ↦ done tt d'
  | done a d' ↦ done tt d'
]

-- What is done has been put together of two functions that are done.
pub go_on-eq-done :
    {D A B : Type 0} (r : Outcome D A) (next : A → Host D B) {b : B} {d' : D}
    → go_on r next ≡ done b d'
    → (a : A) × (d : D) × (r ≡ done a d) × (next a d ≡ done b d')
go_on-eq-done faulted next e = cc
go_on-eq-done running next e = cc
go_on-eq-done (failed d) next e = cc
go_on-eq-done (done a d) next e = (a, d, refl, e)

pub compute-eq-done :
    {D A : Type 0} (r : Result A) (d : D) {a : A} {d' : D}
    → compute r d ≡ done a d'
    → (r ≡ ok a) × (d ≡ d')
compute-eq-done fault d e = cc
compute-eq-done (ok got) d e = (cc, cc)

pub guard-eq-done :
    {D : Type 0} (b : Bool) (d : D) {a : Unit {0}} {d' : D}
    → guard b d ≡ done a d'
    → (b ≡ true) × (d ≡ d')
guard-eq-done true d e = (refl, cc)
guard-eq-done false d e = cc
