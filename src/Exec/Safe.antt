-- ===== src/Exec/Safe.antt =====
-- Operations that keep a predicate of the state, whether they return or fail, and never panic:
-- one rule for each way to build an operation.
use go_lcc.Base.{◌≡◌, refl, Bool, true, false, if◌then◌else◌}
use go_lcc.Status.{VmStatus, Result, ok, err, panic, NoPanic}
use go_lcc.Exec.{Exec, pure, raise, lift, gets, fail_if, modify, continue, ◌>>=◌}

pub record Safe {S A : Type 0} (P : S → Type 0) (m : Exec S A) : Type 0 where
  pub keeps : (s : S) → P s → P (m s).1
  pub no_panic : (s : S) → P s → NoPanic (m s).0

module _ {S A : Type 0} {P : S → Type 0} where
  pub Safe-pure : (a : A) → Safe P (pure a)
  unfolding pure
  Safe-pure a = record { keeps = λ s h. h; no_panic = λ s h. tt }

  pub Safe-raise : (c : VmStatus) → Safe P (raise {A = A} c)
  unfolding raise
  Safe-raise c = record { keeps = λ s h. h; no_panic = λ s h. tt }

  pub Safe-lift : (r : Result A) → NoPanic r → Safe P (lift r)
  unfolding lift
  Safe-lift r n = record { keeps = λ s h. h; no_panic = λ s h. n }

  pub Safe-gets : (f : S → A) → Safe P (gets f)
  unfolding gets
  Safe-gets f = record { keeps = λ s h. h; no_panic = λ s h. tt }

  -- What follows a failed test may use that it failed.
  pub Safe-fail_if :
      (b : Bool) (c : VmStatus) (m : Exec S A) → (b ≡ false → Safe P m) → Safe P (fail_if b c m)
  unfolding fail_if
  Safe-fail_if true c m k = record { keeps = λ s h. h; no_panic = λ s h. tt }
  Safe-fail_if false c m k = record { keeps = (k refl).keeps; no_panic = (k refl).no_panic }

  pub Safe-if :
      (b : Bool) (m n : Exec S A)
      → (b ≡ true → Safe P m)
      → (b ≡ false → Safe P n)
      → Safe P (if b then m else n)
  Safe-if true m n km kn = km refl
  Safe-if false m n km kn = kn refl

pub Safe-modify :
    {S : Type 0} {P : S → Type 0} (f : S → S) → ((s : S) → P s → P (f s)) → Safe P (modify f)
unfolding modify
Safe-modify f k = record { keeps = k; no_panic = λ s h. tt }

module _ {S A B : Type 0} {P : S → Type 0} where
  continue-keeps :
      (r : Result A) (f : A → Exec S B)
      → ((a : A) → Safe P (f a))
      → (s : S) → P s
      → P (continue r f s).1
  continue-keeps (ok a) f k s h = (k a).keeps s h
  continue-keeps (err c) f k s h = h
  continue-keeps panic f k s h = h

  continue-NoPanic :
      (r : Result A) (f : A → Exec S B)
      → ((a : A) → Safe P (f a))
      → NoPanic r
      → (s : S) → P s
      → NoPanic (continue r f s).0
  continue-NoPanic (ok a) f k n s h = (k a).no_panic s h
  continue-NoPanic (err c) f k n s h = tt
  continue-NoPanic panic f k n s h = n

  pub Safe-bind :
      (m : Exec S A) (f : A → Exec S B) → Safe P m → ((a : A) → Safe P (f a)) → Safe P (m >>= f)
  unfolding ◌>>=◌
  Safe-bind m f km kf = record {
    keeps = λ s h. continue-keeps (m s).0 f kf (m s).1 (km.keeps s h);
    no_panic = λ s h. continue-NoPanic (m s).0 f kf (km.no_panic s h) (m s).1 (km.keeps s h);
  }

  -- A read of the state hands on what is true of the value that was read.
  pub Safe-gets-bind :
      (g : S → A) (f : A → Exec S B)
      → ((s : S) → P s → P (f (g s) s).1 × NoPanic (f (g s) s).0)
      → Safe P (gets g >>= f)
  unfolding ◌>>=◌
  Safe-gets-bind g f k = record { keeps = λ s h. (k s h).0; no_panic = λ s h. (k s h).1 }

pub ruleset safe_rules = (Safe-pure, Safe-raise, Safe-gets, Safe-fail_if, Safe-if, Safe-bind)
