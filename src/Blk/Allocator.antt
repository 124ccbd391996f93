-- ===== src/Blk/Allocator.antt =====
-- blk/allocator.h: the interface that every allocator implements and the extent map calls.
use clab.Prelude.{ℕ, List}

pub record PExtent : Type 0 where
  pub offset : ℕ
  pub length : ℕ

-- `allocate` takes what is wanted, the unit and the largest piece, and gives the amount with the
-- pieces (0 stands for -ENOSPC). `release` takes the ranges of an interval set.
pub record Allocator (A : Type 0) : Type 0 where
  pub allocate : A → ℕ → ℕ → ℕ → A × ℕ × List PExtent
  pub release : A → List (ℕ × ℕ) → A
  pub init_add_free : A → ℕ → ℕ → A
  pub init_rm_free : A → ℕ → ℕ → A
  pub get_free : A → ℕ
  pub get_capacity : A → ℕ
