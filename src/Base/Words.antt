-- ===== src/Base/Words.antt =====
-- Machine words as native numbers and integers: the wrap-around is written out.
use Prim.Native.Nat.{ℕ, ◌-◌, ◌%◌}
use android_device_realme_sa.Base.Tests.{if◌then◌else◌, ltb}
use android_device_realme_sa.Base.Int.{negsuc, pos, ℤ}

-- A number as a uint32_t.
abbrev pub u32 : ℕ → ℕ
u32 n = n % 4294967296

-- An integer converted to uint32_t: its residue modulo 2^32.
abbrev pub to_u32 : ℤ → ℕ
to_u32 (pos n) = n % 4294967296
to_u32 (negsuc n) = 4294967295 - n % 4294967296

-- The int32_t that a 32-bit pattern stands for.
abbrev pub signed32 : ℕ → ℤ
signed32 w = if ltb w 2147483648 then pos w else negsuc (4294967295 - w)

-- An integer converted to int32_t, modulo 2^32, as the compilers that build this code do.
abbrev pub to_i32 : ℤ → ℤ
to_i32 a = signed32 (to_u32 a)
