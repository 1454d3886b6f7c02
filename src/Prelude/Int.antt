-- ===== src/Prelude/Int.antt =====
-- Signed machine integers: the value that a w-bit pattern stands for.
use kiro_rs_tool.Prelude.{ℕ, ◌-◌, ◌^◌, ltb, if◌then◌else◌}

-- `negsuc n` is -(n + 1).
pub data ℤ : Type 0 where
  pos : ℕ → ℤ
  negsuc : ℕ → ℤ

-- `v as iN`: the two's complement reading of the low w bits.
abbrev pub as_signed : ℕ → ℕ → ℤ
as_signed w v = if ltb v (2 ^ (w - 1)) then pos v else negsuc (2 ^ w - 1 - v)
