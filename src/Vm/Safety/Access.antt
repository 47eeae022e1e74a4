-- ===== src/Vm/Safety/Access.antt =====
-- The machine's invariant through pushFromMemory and popToMemory of cova/vm.go.
use go_lcc.Base.{ℕ, ◌≡◌, ◌≢◌, refl, arith, sym, ◌∙◌, ◌==◌, false}
use go_lcc.Status.{Result, ok, err, panic, NoPanic}
use go_lcc.Exec.{Exec, lift, ◌>>=◌}
use go_lcc.Exec.Safe.{Safe, safe_rules, Safe-bind, Safe-fail_if, Safe-gets, Safe-raise}
use go_lcc.Kinds.{ValueKind}
use go_lcc.Segment.{read_uint, write_uint, by_size}
use go_lcc.Memory.{segment_for_address, segment_of, segment_const}
use go_lcc.Vm.State.{Vm, set_fault}
use go_lcc.Vm.Access.{load_and_push, located, push_from_memory, pop_and_store, pop_to_memory}
use go_lcc.Vm.Safety.Invariant.{
  Layout, IsSound, set_fault-Safe, recorded-Safe, read-Safe, write-Safe,
}
use go_lcc.Vm.Safety.Stack.{stack_rules}

segment_for_address-NoPanic : (address : ℕ) → NoPanic (segment_for_address address)
unfolding segment_for_address
segment_for_address-NoPanic address = ground arith

segment_for_address-eq-ok :
    (address s : ℕ) → segment_for_address address ≡ ok s → s ≡ segment_of address
unfolding segment_for_address segment_of
segment_for_address-eq-ok address s h = ground arith

not_const :
    (address : ℕ)
    → (segment_of address == segment_const) ≡ false
    → segment_of address ≢ segment_const
not_const address h = ground arith

module _ (l : Layout) where
  load_and_push-Safe :
      (k offset : ℕ) (push : ℕ → Exec Vm (Unit {0})) (segment : ℕ)
      → ((v : ℕ) → Safe (IsSound l) (push v))
      → Safe (IsSound l) (load_and_push (read_uint k offset) push segment)
  unfolding load_and_push
  load_and_push-Safe k offset push segment h =
      Safe-bind _ _ (recorded-Safe l _ (read-Safe l segment k offset)) h

  located-Safe :
      (address : ℕ) (r : Result ℕ) (k : ℕ → Exec Vm (Unit {0}))
      → NoPanic r
      → ((s : ℕ) → r ≡ ok s → Safe (IsSound l) (k s))
      → Safe (IsSound l) (located address r k)
  unfolding set_fault
  located-Safe address (ok s) k n h = h s refl
  located-Safe address (err c) k n h = set_fault-Safe l c _ _ _
  located-Safe address panic k n h = absurd n

  by_size-Safe :
      {A : Type 0} (kind : ValueKind) (a b c d e : Exec Vm A)
      → Safe (IsSound l) a
      → Safe (IsSound l) b
      → Safe (IsSound l) c
      → Safe (IsSound l) d
      → Safe (IsSound l) e
      → Safe (IsSound l) (by_size kind a b c d e)
  by_size-Safe kind a b c d e ha hb hc hd he = search safe_rules depth 8

  pub push_from_memory-Safe :
      (address : ℕ) (kind : ValueKind) → Safe (IsSound l) (push_from_memory address kind)
  unfolding push_from_memory
  push_from_memory-Safe address kind =
      located-Safe address (segment_for_address address) _ (segment_for_address-NoPanic address)
        λ s _.
          by_size-Safe kind _ _ _ _ _ (load_and_push-Safe 1 _ _ s (search stack_rules))
            (load_and_push-Safe 2 _ _ s (search stack_rules))
            (load_and_push-Safe 4 _ _ s (search stack_rules))
            (load_and_push-Safe 8 _ _ s (search stack_rules)) (recorded-Safe l _ (Safe-raise _))

  pop_and_store-Safe :
      (k offset : ℕ) (pop : Exec Vm ℕ) (segment : ℕ)
      → segment ≢ segment_const
      → Safe (IsSound l) pop
      → Safe (IsSound l) (pop_and_store pop (write_uint k offset) segment)
  unfolding pop_and_store
  pop_and_store-Safe k offset pop segment ne h =
      Safe-bind _ _ h λ v. write-Safe l segment k offset v ne

  lift_ok-Safe :
      {A B : Type 0} (r : Result A) (k : A → Exec Vm B)
      → NoPanic r
      → ((a : A) → r ≡ ok a → Safe (IsSound l) (k a))
      → Safe (IsSound l) (lift r >>= k)
  unfolding ◌>>=◌
  lift_ok-Safe (ok a) k n h = record { keeps = (h a refl).keeps; no_panic = (h a refl).no_panic }
  lift_ok-Safe (err c) k n h = record { keeps = λ s p. p; no_panic = λ s p. tt }
  lift_ok-Safe panic k n h = absurd n

  pub pop_to_memory-Safe :
      (address : ℕ) (kind : ValueKind) → Safe (IsSound l) (pop_to_memory address kind)
  unfolding pop_to_memory
  pop_to_memory-Safe address kind = Safe-fail_if _ _ _ λ other.
      lift_ok-Safe (segment_for_address address) _ (segment_for_address-NoPanic address) λ s e.
        let ne : s ≢ segment_const =
          λ c. not_const address other (sym (segment_for_address-eq-ok address s e) ∙ c) in
        Safe-bind _ _ (Safe-gets _) λ len. Safe-fail_if _ _ _ λ _. Safe-fail_if _ _ _ λ _.
          by_size-Safe kind _ _ _ _ _ (pop_and_store-Safe 1 _ _ s ne (search stack_rules))
            (pop_and_store-Safe 2 _ _ s ne (search stack_rules))
            (pop_and_store-Safe 4 _ _ s ne (search stack_rules))
            (pop_and_store-Safe 8 _ _ s ne (search stack_rules)) (Safe-raise _)
