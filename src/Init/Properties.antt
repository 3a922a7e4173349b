-- ===== src/Init/Properties.antt =====
-- init/init_samurai.cpp: vendor_load_properties.
--
-- The system's property area, ReadFileToString and Trim are not part of this repository:
-- `PropertyArea` holds the calls of the first with the laws that bionic documents, and the others
-- are arguments.
use text.Mathlib.Text.{◌==◌ as str_eq}
use android_device_realme_sa.Base.{
  Bool, List, Option, String, [], false, if◌then◌else◌, is_some, none, some, ◌<>◌, ◌∷◌, ◌≡◌,
}

-- __system_property_find with the value found, __system_property_update and __system_property_add.
pub record PropertyArea : Type 1 where
  pub State : Type 0
  pub find : State → String → Option String
  pub update : State → String → String → State
  pub add : State → String → String → State

-- An update or an addition is seen at its name, and nowhere else.
pub record IsLawful (area : PropertyArea) : Type 0 where
  pub find-update :
      (s : area.State) (name value other : String)
      → area.find (area.update s name value) other
        ≡ (if str_eq other name then some value else area.find s other)
  pub find-add :
      (s : area.State) (name value other : String)
      → area.find (area.add s name value) other
        ≡ (if str_eq other name then some value else area.find s other)

abbrev pub ro_props_default_source_order : List String
ro_props_default_source_order =
    "" ∷ "odm." ∷ "product." ∷ "system." ∷ "vendor." ∷ "vendor_dlkm." ∷ []

abbrev pub prop_name : String → String → String
prop_name source prop = "ro.product." <> source <> prop

module _ (area : PropertyArea) where
  open area use {State, find, update}

  unfoldable property_override : String → String → Bool → State → State
  property_override prop value add s =
      if is_some (find s prop)
      then update s prop value
      else if add
      then area.add s prop value
      else s

  unfoldable pub set_ro_product_prop : String → String → String → State → State
  unfolding property_override
  set_ro_product_prop source prop value s = property_override (prop_name source prop) value false s

  -- The loop over the sources.
  unfoldable pub set_device : List String → String → State → State
  unfolding set_ro_product_prop
  set_device [] value s = s
  set_device (source ∷ sources) value s =
      set_device sources value (set_ro_product_prop source "device" value s)

  -- `operator_name` is what the file holds, or `none` if it cannot be read.
  unfoldable pub vendor_load_properties : (String → String) → Option String → State → State
  vendor_load_properties trim none s = s
  vendor_load_properties trim (some operator_name) s =
      if str_eq (trim operator_name) "5"
      then set_device ro_props_default_source_order "RMX1931L1" s
      else if str_eq (trim operator_name) "8"
      then set_device ro_props_default_source_order "RMX1931CN" s
      else s
