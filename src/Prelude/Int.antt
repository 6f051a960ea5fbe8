-- ===== src/Prelude/Int.antt =====
-- Signed integers: Python's `int`, as far as the program uses it.
use Prim.Native.Nat.{ℕ}
use mathlib.Core.Bool.{Bool, true, false}
use python_workflow_service.Prelude.Tests.{◌==◌, ltb}

pub data ℤ : Type 0 where
  pos : ℕ → ℤ
  negsuc : ℕ → ℤ

-- `max(0, z)`.
abbrev pub pos_part : ℤ → ℕ
pos_part (pos n) = n
pos_part (negsuc _) = 0

abbrev pub int_eq : ℤ → ℤ → Bool
int_eq (pos m) (pos n) = m == n
int_eq (negsuc m) (negsuc n) = m == n
int_eq _ _ = false

-- `<` on integers; `negsuc n` is -(n + 1).
abbrev pub z_ltb : ℤ → ℤ → Bool
z_ltb (pos m) (pos n) = ltb m n
z_ltb (pos m) (negsuc n) = false
z_ltb (negsuc m) (pos n) = true
z_ltb (negsuc m) (negsuc n) = ltb n m
