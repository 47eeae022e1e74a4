-- ===== src/Outcome.antt =====
-- Results of the compiler's passes: a value, an error of the pass's own type, or a Go run-time panic.
use go_lcc.Base.{Bool, true, false, if◌then◌else◌, ◌≡◌, refl}

pub data Outcome (E A : Type 0) : Type 0 where
  done : A → Outcome E A
  failed : E → Outcome E A
  panic : Outcome E A

-- Opening this opens the other operations too.
infixl 5 ◌>>=◌
unfoldable pub ◌>>=◌ : {E A B : Type 0} → Outcome E A → (A → Outcome E B) → Outcome E B
done a >>= f = f a
failed e >>= f = failed e
panic >>= f = panic

-- if test { return error }
unfoldable pub fail_if : {E A : Type 0} → Bool → E → Outcome E A → Outcome E A
fail_if true e m = failed e
fail_if false e m = m

abbrev pub Safe : {E A : Type 0} → (E → Type 0) → (A → Type 0) → Outcome E A → Type 0
Safe Q P (done a) = P a
Safe Q P (failed e) = Q e
Safe Q P panic = ⊥

-- What every result of a computation is made of: a value with P, or an error with Q, and no panic.
pub Safe->>= :
    {E A B : Type 0} (Q : E → Type 0) (P : A → Type 0) (R : B → Type 0) (m : Outcome E A)
    (f : A → Outcome E B)
    → Safe Q P m
    → ((a : A) → P a → Safe Q R (f a))
    → Safe Q R (m >>= f)
unfolding ◌>>=◌
Safe->>= Q P R (done a) f h k = k a h
Safe->>= Q P R (failed e) f h k = h
Safe->>= Q P R panic f h k = h

pub Safe-weaken :
    {E A : Type 0} (Q R : E → Type 0) (P : A → Type 0) (m : Outcome E A)
    → Safe Q P m
    → ((e : E) → Q e → R e)
    → Safe R P m
Safe-weaken Q R P (done a) h k = h
Safe-weaken Q R P (failed e) h k = k e h
Safe-weaken Q R P panic h k = h

pub Safe-map :
    {E A : Type 0} (Q : E → Type 0) (P R : A → Type 0) (m : Outcome E A)
    → Safe Q P m
    → ((a : A) → P a → R a)
    → Safe Q R m
Safe-map Q P R (done a) h k = k a h
Safe-map Q P R (failed e) h k = h
Safe-map Q P R panic h k = h

pub Safe-known :
    {E A : Type 0} (Q : E → Type 0) (P : A → Type 0) (m : Outcome E A)
    → Safe Q P m
    → Safe Q (λ a. P a × (m ≡ done a)) m
Safe-known Q P (done a) h = (h, refl)
Safe-known Q P (failed e) h = h
Safe-known Q P panic h = h

pub Safe-if :
    {E A : Type 0} (Q : E → Type 0) (P : A → Type 0) (b : Bool) (m n : Outcome E A)
    → (b ≡ true → Safe Q P m)
    → (b ≡ false → Safe Q P n)
    → Safe Q P (if b then m else n)
Safe-if Q P true m n h k = h refl
Safe-if Q P false m n h k = k refl

-- A property of the value where there is one; nothing is asked of an error or a panic.
abbrev pub Where : {E A : Type 0} → (A → Type 0) → Outcome E A → Type 0
Where P (done a) = P a
Where P (failed e) = Unit
Where P panic = Unit

pub Where-if :
    {E A : Type 0} (P : A → Type 0) (b : Bool) (m n : Outcome E A)
    → Where P m
    → Where P n
    → Where P (if b then m else n)
Where-if P true m n h k = h
Where-if P false m n h k = k

pub Where-when :
    {E A : Type 0} (P : A → Type 0) (b : Bool) (m n : Outcome E A)
    → (b ≡ true → Where P m)
    → (b ≡ false → Where P n)
    → Where P (if b then m else n)
Where-when P true m n h k = h refl
Where-when P false m n h k = k refl

pub Where->>= :
    {E A B : Type 0} (Q : A → Type 0) (P : B → Type 0) (m : Outcome E A) (f : A → Outcome E B)
    → Where Q m
    → ((a : A) → Q a → Where P (f a))
    → Where P (m >>= f)
unfolding ◌>>=◌
Where->>= Q P (done a) f q h = h a q
Where->>= Q P (failed e) f q h = tt
Where->>= Q P panic f q h = tt

pub Where-any :
    {E A B : Type 0} (P : B → Type 0) (m : Outcome E A) (f : A → Outcome E B)
    → ((a : A) → Where P (f a))
    → Where P (m >>= f)
unfolding ◌>>=◌
Where-any P (done a) f h = h a
Where-any P (failed e) f h = tt
Where-any P panic f h = tt

pub Where-both :
    {E A : Type 0} (P Q : A → Type 0) (m : Outcome E A)
    → Where P m
    → Where Q m
    → Where (λ a. P a × Q a) m
Where-both P Q (done a) h k = (h, k)
Where-both P Q (failed e) h k = tt
Where-both P Q panic h k = tt
