-- ===== src/Fingerprint/UdfpsExtension.antt =====
-- fingerprint/UdfpsExtension.cpp: the z-orders of the layers around the sensor. FOD_PRESSED_LAYER_ZORDER
-- comes from a header of the kernel; it is an argument, and `none` where no header defines it.
use android_device_realme_sa.Base.{
  Bool, Option, arith, bit_or, false, if◌then◌else◌, none, refl, some, true, ℕ, ◌<◌, ◌≡◌,
}

unfoldable pub get_udfps_dim_z_order : ℕ → ℕ
get_udfps_dim_z_order z = 0x41000005

unfoldable pub get_udfps_z_order : Option ℕ → ℕ → Bool → ℕ
get_udfps_z_order none z touched = if touched then 0x41000033 else z
get_udfps_z_order (some fod_pressed_layer_zorder) z touched =
    if touched then bit_or z fod_pressed_layer_zorder else z

unfoldable pub get_udfps_usage_bits : ℕ → Bool → ℕ
get_udfps_usage_bits usage_bits touched = usage_bits

-- Where the header does not define the flag, a touched layer lies above the dim layer whatever its
-- own z-order, and an untouched layer keeps its own.
pub pressed_above_dim :
    (z w : ℕ)
    → (get_udfps_dim_z_order w < get_udfps_z_order none z true)
      × (get_udfps_z_order none z false ≡ z)
unfolding get_udfps_dim_z_order get_udfps_z_order
pressed_above_dim z w = (omega arith, refl)
