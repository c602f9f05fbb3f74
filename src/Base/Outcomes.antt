-- ===== src/Base/Outcomes.antt =====
-- The outcome of a call: a value, or the way in which the simulator ends.
use mathlib.Core.Path.{◌≡◌, refl}
use Prim.Native.Nat.{ℕ}
use mathlib.Core.Logic.{◌⊎◌, inl, inr}
use mathlib.Core.Bool.{Bool, true, false}

-- `assert` of the C library; `rpt_sim_trap`; `rpt_err`; `rpt_cond` and `vrpt_cond`; `abort` with a
-- message of its own; `USLOSS_Halt` with its status.
pub data Fault : Type 0 where
  assertion sim_trap sys_error internal_error aborted : Fault
  halted : ℕ → Fault

pub data Result {ℓ} (A : Type ℓ) : Type ℓ where
  done : A → Result A
  fault : Fault → Result A

infixl 5 ◌>>=◌ ◌>>◌
abbrev pub ◌>>=◌ {ℓ κ} : {A : Type ℓ} {B : Type κ} → Result A → (A → Result B) → Result B
done a >>= f = f a
fault e >>= f = fault e

abbrev pub ◌>>◌ {ℓ} : {B : Type ℓ} → Result (Unit {0}) → Result B → Result B
m >> k = m >>= λ _. k

-- A check that ends the simulator when it fails.
abbrev pub check : Bool → Fault → Result (Unit {0})
check true e = done tt
check false e = fault e

pub >>=-done {ℓ κ} :
    {A : Type ℓ} {B : Type κ} (m : Result A) (f : A → Result B) {b : B}
    → (m >>= f) ≡ done b
    → (a : A) × (m ≡ done a) × (f a ≡ done b)
>>=-done (done a) f h = (a, refl, h)
>>=-done (fault e) f h = cc

-- Two results that are equal have equal parts.
pub done_fst {ℓ κ} :
    {A : Type ℓ} {B : Type κ} {a a' : A} {b b' : B}
    → ◌≡◌ {A = Result (A × B)} (done (a, b)) (done (a', b'))
    → a ≡ a'
done_fst e = cc

pub done_snd {ℓ κ} :
    {A : Type ℓ} {B : Type κ} {a a' : A} {b b' : B}
    → ◌≡◌ {A = Result (A × B)} (done (a, b)) (done (a', b'))
    → b ≡ b'
done_snd e = cc

pub Result-cases {ℓ} :
    {A : Type ℓ} (r : Result A) → ((a : A) × (r ≡ done a)) ⊎ ((f : Fault) × (r ≡ fault f))
Result-cases (done a) = inl (a, refl)
Result-cases (fault f) = inr (f, refl)

pub done_inj {ℓ} : {A : Type ℓ} {a b : A} → done a ≡ done b → a ≡ b
done_inj e = cc

pub done≢fault {ℓ κ} : {A : Type ℓ} {C : Type κ} {a : A} {f : Fault} → done a ≡ fault f → C
done≢fault e = absurd (cc)
