-- ===== src/Init/Variant.antt =====
-- init/init_samurai.cpp: which properties the hook changes, and to what.
use text.Mathlib.Text.{◌==◌ as str_eq}
use text.Mathlib.TextEquality.{eq_iff}
use android_device_realme_sa.Base.{
  Bool, List, Option, String, [], any, ap, arith, false, if◌then◌else◌, is_some, none, refl, some,
  true, ◌&&◌, ◌||◌, ◌∙◌, ◌∷◌, ◌≡◌,
}
use android_device_realme_sa.Init.Properties.{
  IsLawful, PropertyArea, prop_name, ro_props_default_source_order, set_device, set_ro_product_prop,
  vendor_load_properties,
}

-- The device name for a market: global, China, or none that is supported.
unfoldable pub variant : (String → String) → Option String → Option String
variant trim none = none
variant trim (some name) =
    if str_eq (trim name) "5"
    then some "RMX1931L1"
    else if str_eq (trim name) "8"
    then some "RMX1931CN"
    else none

-- The name is that of the device property of one of the sources.
abbrev is_device_prop : List String → String → Bool
is_device_prop sources name = any (λ source. str_eq name (prop_name source "device")) sources

abbrev overridden : Bool → String → Option String → Option String
overridden mine value old = if mine && is_some old then some value else old

module _ (area : PropertyArea) (lawful : IsLawful area) where
  set_ro_product_prop-find :
      (source value name : String) (s : area.State)
      → area.find (set_ro_product_prop area source "device" value s) name
        ≡ overridden (str_eq name (prop_name source "device")) value (area.find s name)
  unfolding set_ro_product_prop
  set_ro_product_prop-find source value name s = ground (
    arith,
    lawful.find-update s (prop_name source "device") value name,
    eq_iff name (prop_name source "device"),
  )

  set_device-find :
      (sources : List String) (value name : String) (s : area.State)
      → area.find (set_device area sources value s) name
        ≡ overridden (is_device_prop sources name) value (area.find s name)
  unfolding set_device
  set_device-find [] value name s = refl
  set_device-find (source ∷ sources) value name s =
      set_device-find sources value name (set_ro_product_prop area source "device" value s)
      ∙ ap (overridden (is_device_prop sources name) value)
          (set_ro_product_prop-find source value name s)
      ∙ overridden_twice (is_device_prop sources name) (str_eq name (prop_name source "device"))
          (area.find s name)
    where
      overridden_twice :
          (b c : Bool) (old : Option String)
          → overridden b value (overridden c value old) ≡ overridden (c || b) value old
      overridden_twice b c none = ground arith
      overridden_twice b c (some v) = ground arith

  abbrev expected : Option String → Bool → Option String → Option String
  expected none mine old = old
  expected (some value) mine old = overridden mine value old

  -- The hook gives the device property of each of the six sources that has one the name of the
  -- market's variant; it adds no property, changes no other, and changes nothing for another market
  -- or an unreadable file.
  pub vendor_load_properties-find :
      (trim : String → String) (file : Option String) (name : String) (s : area.State)
      → area.find (vendor_load_properties area trim file s) name
        ≡ expected
            (variant trim file)
            (is_device_prop ro_props_default_source_order name)
            (area.find s name)
  unfolding vendor_load_properties variant
  vendor_load_properties-find trim none name s = refl
  vendor_load_properties-find trim (some text) name s =
      by_market (str_eq (trim text) "5") (str_eq (trim text) "8")
    where
      order : List String
      order = ro_props_default_source_order

      by_market :
          (global china : Bool)
          → area.find
              (if global
                then set_device area order "RMX1931L1" s
                else if china
                then set_device area order "RMX1931CN" s
                else s)
              name
            ≡ expected
                (if global then some "RMX1931L1" else if china then some "RMX1931CN" else none)
                (is_device_prop order name)
                (area.find s name)
      by_market true china = set_device-find order "RMX1931L1" name s
      by_market false true = set_device-find order "RMX1931CN" name s
      by_market false false = refl
