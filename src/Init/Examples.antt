-- ===== src/Init/Examples.antt =====
-- init/: the hook on a small property area.
use text.Mathlib.Text.{◌==◌ as str_eq}
use android_device_realme_sa.Base.{Option, String, if◌then◌else◌, none, refl, some, ◌≡◌}
use android_device_realme_sa.Init.Properties.{IsLawful, PropertyArea, vendor_load_properties}
use android_device_realme_sa.Init.Variant.{variant, vendor_load_properties-find}

-- A property area as a function.
abbrev table : PropertyArea
table = record {
  State = String → Option String;
  find = λ s name. s name;
  update = λ s name value other. if str_eq other name then some value else s other;
  add = λ s name value other. if str_eq other name then some value else s other;
}

table-IsLawful : IsLawful table
table-IsLawful = record {
  find-update = λ s name value other. refl;
  find-add = λ s name value other. refl;
}

abbrev booted : String → Option String
booted name = if str_eq name "ro.product.odm.device" then some "generic" else none

vendor_load_properties-find_example :
    vendor_load_properties table (λ t. t) (some "8") booted "ro.product.odm.device"
    ≡ some "RMX1931CN"
unfolding variant
vendor_load_properties-find_example =
    vendor_load_properties-find table table-IsLawful (λ t. t) (some "8") "ro.product.odm.device"
      booted
