-- ===== src/Base/Floats.antt =====
-- The conversion of an int to a float, which has 24 binary digits: to the nearest one, and to the even
-- one of two. A float of an int is a whole number, so its value is an integer.
use Prim.Native.Nat.{ℕ, zero, suc, ◌+◌, ◌*◌, ◌/◌, ◌%◌}
use mathlib.Core.Path.{◌≡◌, refl}
use android_device_realme_sa.Base.Tests.{if◌then◌else◌, ltb}
use android_device_realme_sa.Base.Int.{neg_part, pos, pos_part, sub_ℕ, ℤ}

-- The multiple of `unit` that is nearest.
abbrev round_even : ℕ → ℕ → ℕ
round_even unit n =
    let q = n / unit in
    let r = n % unit in
    unit * (if ltb (2 * r) unit then q else if ltb unit (2 * r) then q + 1 else q + q % 2)

-- With 24 digits from the first on; 8 units are enough for 32 digits.
unfoldable round_digits : ℕ → ℕ → ℕ → ℕ
round_digits zero unit n = round_even unit n
round_digits (suc fuel) unit n =
    let wider = round_digits fuel (2 * unit) n in
    if ltb n (16777216 * unit) then round_even unit n else wider

unfoldable pub to_float : ℤ → ℤ
unfolding round_digits
to_float z = sub_ℕ (round_digits 8 1 (pos_part z)) (round_digits 8 1 (neg_part z))

-- 2^24 + 1 lies between two floats, and the even one is 2^24.
first_rounded : to_float (pos 16777217) ≡ pos 16777216
unfolding to_float
first_rounded = refl

coordinate_exact : to_float (pos 1080) ≡ pos 1080
unfolding to_float
coordinate_exact = refl
