-- ===== src/ChargeSpeed/Fragment.antt =====
-- chargespeed/, ChargingSpeedFragment: the preference of the screen.
--
-- The preference is the fields of the ListPreference that the fragment sets; the preference itself, if
-- findPreference gives one, is an argument.
use android_device_realme_sa.Base.{
  Bool, List, Option, [], arith, false, if◌then◌else◌, none, some, suc, true, ℕ, ◌∷◌, ◌≡◌,
}
use android_device_realme_sa.Base.Int.{negsuc, pos, ℤ}
use android_device_realme_sa.ChargeSpeed.CoolDown.{
  Device, choose_level, is_supported, load_saved, on_preference_change, parse_int, save_and_apply,
  to_decimal, write_at, write_cool_down,
}

-- The texts that the fragment sets: R.string.charging_speed_unavailable, and "%s".
pub data Summary : Type 0 where
  unavailable selected_entry : Summary
  other_summary : List ℕ → Summary

pub record Preference : Type 0 where
  pub value : List ℕ
  pub summary : Summary
  pub enabled : Bool
  pub has_listener : Bool

-- String.valueOf of an int.
abbrev pub value_of : ℤ → List ℕ
value_of (pos n) = to_decimal 10 n
value_of (negsuc n) = 45 ∷ to_decimal 10 (suc n)

-- mSpeedPref after onCreatePreferences.
unfoldable pub on_create_preferences : Option Preference → Device → Option Preference
unfolding is_supported
on_create_preferences none d = none
on_create_preferences (some p) d = some (
    if is_supported d
    then record p { value = value_of (load_saved d); summary = selected_entry; has_listener = true }
    else record p { summary = unavailable; enabled = false })

-- onPreferenceChange: what mSpeedPref shows once the text was parsed.
unfoldable pub show_level : Option ℤ → Preference → Preference
show_level none p = p
show_level (some level) p = record p { value = value_of level; summary = selected_entry }

-- onPreferenceChange; `same` says whether the preference is mSpeedPref.
unfoldable pub change_preference :
    Bool → Bool → List ℕ → Preference × Device → Bool × (Preference × Device)
unfolding show_level on_preference_change
change_preference false writable new_value s = (false, s)
change_preference true writable new_value (p, d) =
    let (accepted, d') = on_preference_change writable new_value d in
    (accepted, (show_level (parse_int new_value) p, d'))

-- The changes that a user makes on the screen, each with whether the node can be written.
unfoldable pub changes : List (Bool × List ℕ) → Preference × Device → Preference × Device
unfolding change_preference
changes [] s = s
changes ((writable, new_value) ∷ cs) s = changes cs (change_preference true writable new_value s).1

abbrev pub ShowsSaved : Preference × Device → Type 0
ShowsSaved (p, d) =
    (p.value ≡ value_of (load_saved d)) × (p.summary ≡ selected_entry) × (p.has_listener ≡ true)

show_level-ShowsSaved :
    (writable : Bool) (o : Option ℤ) (p : Preference) (d : Device)
    → ShowsSaved (p, d)
    → ShowsSaved (show_level o p, (choose_level writable o d).1)
unfolding show_level choose_level save_and_apply write_cool_down write_at
show_level-ShowsSaved writable none p d k = k
show_level-ShowsSaved writable (some level) p d k = ground arith

change-ShowsSaved :
    (writable : Bool) (new_value : List ℕ) (s : Preference × Device)
    → ShowsSaved s
    → ShowsSaved (change_preference true writable new_value s).1
unfolding change_preference on_preference_change
change-ShowsSaved writable new_value (p, d) k =
    show_level-ShowsSaved writable (parse_int new_value) p d k

changes-ShowsSaved :
    (cs : List (Bool × List ℕ)) (s : Preference × Device) → ShowsSaved s → ShowsSaved (changes cs s)
unfolding changes
changes-ShowsSaved [] s k = k
changes-ShowsSaved ((writable, new_value) ∷ cs) s k =
    changes-ShowsSaved cs _ (change-ShowsSaved writable new_value s k)

-- On a supported device, the screen shows the saved level, as text, from its creation on and after any
-- changes of the preference, whether their texts are numbers or not.
pub shows_saved :
    (cs : List (Bool × List ℕ)) (p q : Preference) (d : Device)
    → is_supported d ≡ true
    → on_create_preferences (some p) d ≡ some q
    → ShowsSaved (changes cs (q, d))
unfolding on_create_preferences
shows_saved cs p q d supported created = changes-ShowsSaved cs (q, d) (ground arith)
