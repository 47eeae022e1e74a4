-- ===== src/Exec.antt =====
-- Go methods that mutate their receiver and return a status: functions from the old state to a
-- result and the new state. What was written before an error stays written.
pub mod Safe
pub mod Returns
use go_lcc.Base.{Bool, true, false}
use go_lcc.Status.{VmStatus, Result, ok, err, panic}

abbrev pub Exec : Type 0 → Type 0 → Type 0
Exec S A = S → Result A × S

module _ {S A : Type 0} where
  unfoldable pub pure : A → Exec S A
  pure a s = (ok a, s)

  unfoldable pub raise : VmStatus → Exec S A
  raise c s = (err c, s)

  -- A computation that leaves the state alone.
  unfoldable pub lift : Result A → Exec S A
  lift r s = (r, s)

  unfoldable pub gets : (S → A) → Exec S A
  gets f s = (ok (f s), s)

  -- if test { return status }
  unfoldable pub fail_if : Bool → VmStatus → Exec S A → Exec S A
  fail_if true c m s = (err c, s)
  fail_if false c m s = m s

unfoldable pub modify : {S : Type 0} → (S → S) → Exec S (Unit {0})
modify f s = (ok tt, f s)

module _ {S A B : Type 0} where
  abbrev pub continue : Result A → (A → Exec S B) → Exec S B
  continue (ok a) f s = f a s
  continue (err c) f s = (err c, s)
  continue panic f s = (panic, s)

  infixl 5 ◌>>=◌ ◌>>◌
  -- Opening this opens the five above too.
  unfoldable pub ◌>>=◌ : Exec S A → (A → Exec S B) → Exec S B
  unfolding pure raise lift gets fail_if modify
  ◌>>=◌ m f s = let (r, s') = m s in continue r f s'

  abbrev pub ◌>>◌ : Exec S A → Exec S B → Exec S B
  m >> n = m >>= λ _. n
