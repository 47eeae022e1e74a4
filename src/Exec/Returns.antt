-- ===== src/Exec/Returns.antt =====
-- What is true of the state where an operation returns, of its errors nothing: one rule for each way
-- to build an operation.
use go_lcc.Base.{Bool, true, false, if◌then◌else◌}
use go_lcc.Status.{Result, ok, err, panic}
use go_lcc.Exec.{Exec, pure, lift, continue, ◌>>=◌}

abbrev pub Reaches : {S A : Type 0} → (S → Type 0) → Result A × S → Type 0
Reaches Q (ok a, s) = Q s
Reaches Q (err c, s) = Unit
Reaches Q (panic, s) = Unit

-- From a state with P the operation returns, where it does, in one with Q.
pub record Returns {S A : Type 0} (P Q : S → Type 0) (m : Exec S A) : Type 0 where
  pub reaches : (s : S) → P s → Reaches Q (m s)

lift-Reaches : {S A : Type 0} (P : S → Type 0) (r : Result A) (s : S) → P s → Reaches P (r, s)
lift-Reaches P (ok a) s h = h
lift-Reaches P (err c) s h = tt
lift-Reaches P panic s h = tt

continue-Reaches :
    {S A B : Type 0} (Q R : S → Type 0) (r : Result A) (s : S) (f : A → Exec S B)
    → Reaches Q (r, s)
    → ((a : A) → Returns Q R (f a))
    → Reaches R (continue r f s)
continue-Reaches Q R (ok a) s f h k = (k a).reaches s h
continue-Reaches Q R (err c) s f h k = tt
continue-Reaches Q R panic s f h k = tt

module _ {S A : Type 0} {P : S → Type 0} where
  pub Returns-pure : (a : A) → Returns P P (pure a)
  unfolding pure
  Returns-pure a = record { reaches = λ s h. h }

  pub Returns-lift : (r : Result A) → Returns P P (lift r)
  unfolding lift
  Returns-lift r = record { reaches = lift-Reaches P r }

  pub Returns-if :
      {Q : S → Type 0} (b : Bool) (m n : Exec S A)
      → Returns P Q m
      → Returns P Q n
      → Returns P Q (if b then m else n)
  Returns-if true m n km kn = km
  Returns-if false m n km kn = kn

module _ {S A B : Type 0} {P Q R : S → Type 0} where
  pub Returns-bind :
      (m : Exec S A) (f : A → Exec S B)
      → Returns P Q m
      → ((a : A) → Returns Q R (f a))
      → Returns P R (m >>= f)
  unfolding ◌>>=◌
  Returns-bind m f km kf = record {
    reaches = λ s h. continue-Reaches Q R (m s).0 (m s).1 f (km.reaches s h) kf;
  }
