-- ===== src/Executor/Steps/Range.antt =====
-- The ways in which the executor computes the index of the last step and of the next one
-- (internal/controller/partition/executor.go).
use batch_release.Base.{ℕ, ◌≡◌, true, false, ◌≤◌}
use batch_release.Base.Int.{ℤ, pos, ◌+ℤ◌, ◌-ℤ◌, ◌≤ℤ◌, ◌<ℤ◌, eqb_ℤ, add32, sub32, to_int32, int_laws}
use batch_release.Executor.Monad.{Error}

-- No error at all.
abbrev pub Never : Error → Type 0
Never x = ⊥

-- The two ways in which the source computes the index of the last step.
module _ (i : ℤ) (n : ℕ) (lo : pos 0 ≤ℤ i) (hi : i <ℤ pos n) (sized : n ≤ 2147483647) where
  pub last_index : to_int32 (pos n -ℤ pos 1) ≡ pos n -ℤ pos 1
  last_index = omega int_laws

  pub final_index : sub32 (to_int32 (pos n)) (pos 1) ≡ pos n -ℤ pos 1
  final_index = omega int_laws

  pub at_end : eqb_ℤ i (pos n -ℤ pos 1) ≡ true → i +ℤ pos 1 ≡ pos n
  at_end h = grind int_laws

  pub not_at_end : eqb_ℤ i (pos n -ℤ pos 1) ≡ false → i +ℤ pos 1 <ℤ pos n
  not_at_end h = grind int_laws

  pub incremented : add32 i (pos 1) ≡ i +ℤ pos 1
  incremented = omega int_laws
