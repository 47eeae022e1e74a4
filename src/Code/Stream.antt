-- ===== src/Code/Stream.antt =====
-- Appending to code, and reading at the instruction pointer.
use go_lcc.Base.{
  ℕ, ◌+◌, ◌^◌, ◌≤◌, ◌<◌, ◌≡◌, refl, arith, ap, sym, ◌∙◌, u32, List, ◌++◌, [], length, length-append,
  length-replicate, replicate, splice, overwrite, slice, drop, take, ◌∷◌,
}
use go_lcc.Status.{ok, NoPanic}
use go_lcc.Exec.{◌>>=◌}
use go_lcc.Bytes.{le_bytes, le_value, le_read}
use go_lcc.Bytes.Laws.{le_put-eq-ok, le_read-eq-ok, length-le_bytes, le_value-le_bytes}
use go_lcc.Kinds.{ValueKind, size}
use go_lcc.Code.{
  CodeMemory, append_value, read_at_ip, read_instruction_checked, read_immediate_checked,
  read_uint32_checked,
}

overwrite-all {ℓ} : {A : Type ℓ} (ys zs : List A) → length ys ≡ length zs → overwrite ys zs ≡ zs
overwrite-all [] [] h = refl
overwrite-all [] (z ∷ zs) h = absurd (omega arith)
overwrite-all (y ∷ ys) [] h = absurd (omega arith)
overwrite-all (y ∷ ys) (z ∷ zs) h = ap (λ l. z ∷ l) (overwrite-all ys zs (omega arith))

splice-end {ℓ} :
    {A : Type ℓ} (xs ys zs : List A)
    → length ys ≡ length zs
    → splice (xs ++ ys) (length xs) zs ≡ xs ++ zs
splice-end [] ys zs h = overwrite-all ys zs h
splice-end (x ∷ xs) ys zs h = ap (λ l. x ∷ l) (splice-end xs ys zs h)

-- Appending a value of n bytes succeeds and adds its bytes at the end.
pub append_value-eq-ok :
    (n : ℕ) (code : CodeMemory) (v : ℕ) → append_value n code v ≡ ok (code ++ le_bytes n v)
unfolding append_value
append_value-eq-ok n code v =
    let zeros : List ℕ = replicate n 0 in
    let n_zeros : length zeros ≡ n = length-replicate {A = ℕ} n 0 in
    let room : length code + n ≤ length (code ++ zeros) =
      omega (arith, length-append code zeros, n_zeros) in
    le_put-eq-ok n (code ++ zeros) (length code) v room
    ∙ ap ok (splice-end code zeros (le_bytes n v) (n_zeros ∙ sym (length-le_bytes n v)))

drop-append {ℓ} : {A : Type ℓ} (xs ys : List A) → drop (length xs) (xs ++ ys) ≡ ys
drop-append [] ys = refl
drop-append (x ∷ xs) ys = drop-append xs ys

take-append {ℓ} : {A : Type ℓ} (xs ys : List A) → take (length xs) (xs ++ ys) ≡ xs
take-append [] ys = refl
take-append (x ∷ xs) ys = ap (λ l. x ∷ l) (take-append xs ys)

take_exactly {ℓ} : {A : Type ℓ} (n : ℕ) (xs ys : List A) → length xs ≡ n → take n (xs ++ ys) ≡ xs
take_exactly n xs ys e = rw (← e) (take-append xs ys)

-- A value of n bytes that stands at the pointer is read, whatever code is around it, and the pointer
-- then stands behind it.
pub read_at_ip-append :
    (n : ℕ) (before after : CodeMemory) (v : ℕ)
    → v < 256 ^ n
    → length before + n < 2 ^ 32
    → read_at_ip n (before ++ (le_bytes n v ++ after)) (length before) ≡ (ok v, length before + n)
unfolding read_at_ip ◌>>=◌
read_at_ip-append n before after v small short =
    let code : CodeMemory = before ++ (le_bytes n v ++ after) in
    let bytes : slice code (length before) n ≡ le_bytes n v =
      ap (take n) (drop-append before (le_bytes n v ++ after))
      ∙ take_exactly n (le_bytes n v) after (length-le_bytes n v) in
    let fits : length before + n ≤ length code = omega (
      arith,
      length-append before (le_bytes n v ++ after),
      length-append (le_bytes n v) after,
      length-le_bytes n v,
    ) in
    let got : le_read n code (length before) ≡ ok v =
      le_read-eq-ok n code (length before) fits
      ∙ ap (λ l. ok (le_value l)) bytes
      ∙ ap ok (le_value-le_bytes n v small) in
    let moved : u32 (length before + n) ≡ length before + n = omega arith in rw (got, moved)

module _ (code : CodeMemory) where
  read_at_ip-NoPanic : (n ip : ℕ) → ip + n ≤ length code → NoPanic (read_at_ip n code ip).0
  unfolding read_at_ip le_read ◌>>=◌
  read_at_ip-NoPanic n ip h = ground arith

  -- Whatever the code and the pointer, the checked reads return or fail and never panic.
  pub read_instruction_checked-NoPanic : (ip : ℕ) → NoPanic (read_instruction_checked code ip).0
  unfolding read_instruction_checked le_read ◌>>=◌
  read_instruction_checked-NoPanic ip = ground arith

  pub read_uint32_checked-NoPanic : (ip : ℕ) → NoPanic (read_uint32_checked code ip).0
  unfolding read_uint32_checked le_read ◌>>=◌
  read_uint32_checked-NoPanic ip = ground arith

  pub read_immediate_checked-NoPanic :
      (kind : ValueKind) (ip : ℕ) → NoPanic (read_immediate_checked code kind ip).0
  unfolding read_immediate_checked le_read size ◌>>=◌
  read_immediate_checked-NoPanic (ValueKind.other n) ip = tt
  read_immediate_checked-NoPanic _ ip = ground arith
