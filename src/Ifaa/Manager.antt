-- ===== src/Ifaa/Manager.antt =====
-- ifaamanager/lib/org/ifaa/android/manager/IFAAManagerImpl.java: the methods that compute an answer.
--
-- The framework's managers are not part of this repository: what they answer are arguments, and so is
-- whether the settings activity is there. A context is taken to be set. `none` where an object is
-- expected is null.
use android_device_realme_sa.Base.{
  Bool, List, Option, [], get_or, if◌then◌else◌, length, ltb, none, not, some, suc, zero, ℕ, ◌%◌,
  ◌&&◌, ◌++◌, ◌+◌, ◌-◌, ◌/◌, ◌∷◌,
}
use android_device_realme_sa.Base.Int.{eq_ℤ, negsuc, pos, ℤ}

abbrev biometric_nouse_noset_keyguard : ℕ
biometric_nouse_noset_keyguard = 1003

abbrev biometric_nouse_systemlocked : ℕ
biometric_nouse_systemlocked = 1001

abbrev biometric_use_ready : ℕ
biometric_use_ready = 1000

get_support_bio_types : ℕ
get_support_bio_types = 17

-- 0, or -1 for another type of authentication or where the activity is not found.
start_bio_manager : Bool → ℤ → ℤ
start_bio_manager activity_found auth_type =
    if eq_ℤ auth_type (pos 1) && activity_found then pos 0 else negsuc 0

unfoldable pub get_enabled : Bool → ℤ → ℕ
get_enabled is_keyguard_secure bio_type =
    if not is_keyguard_secure
    then biometric_nouse_noset_keyguard
    else if eq_ℤ bio_type (pos 1)
    then biometric_use_ready
    else if eq_ℤ bio_type (pos 4)
    then biometric_nouse_systemlocked
    else 0

-- myIDList[i] = id
abbrev pub set_at : ℕ → ℤ → List ℤ → List ℤ
set_at i id [] = []
set_at zero id (x ∷ xs) = id ∷ xs
set_at (suc i) id (x ∷ xs) = x ∷ set_at i id xs

-- The body of the loop of getIDList; a fingerprint is its id, or null.
abbrev pub put_id : Option ℤ → ℕ → List ℤ → List ℤ
put_id none i ids = ids
put_id (some id) i ids = set_at i id ids

-- The loop, with the number of turns that are left.
unfoldable pub ids_loop : ℕ → ℕ → List (Option ℤ) → List ℤ → List ℤ
ids_loop zero i fingerprints ids = ids
ids_loop (suc n) i fingerprints ids =
    ids_loop n (suc i) fingerprints (put_id (get_or fingerprints i none) i ids)

-- new int[n]
abbrev pub zeros : ℕ → List ℤ
zeros zero = []
zeros (suc n) = pos 0 ∷ zeros n

-- `manager` is what the fingerprint manager, if there is one, gives as enrolled: a list, or null.
unfoldable pub get_id_list : Option (Option (List (Option ℤ))) → ℤ → Option (List ℤ)
unfolding ids_loop
get_id_list none bio_type = none
get_id_list (some none) bio_type = none
get_id_list (some (some [])) bio_type = none
get_id_list (some (some (f ∷ fs))) bio_type =
    if eq_ℤ bio_type (pos 1)
    then some (ids_loop (length (f ∷ fs) - 1) 0 (f ∷ fs) (zeros (length (f ∷ fs))))
    else none

-- The bits of `v & 255`.
abbrev pub low_byte : ℤ → ℕ
low_byte (pos n) = n % 256
low_byte (negsuc n) = 255 - n % 256

abbrev pub hex_digit : ℕ → ℕ
hex_digit d = if ltb d 10 then d + 48 else d + 87

-- Integer.toHexString of a number below 256.
unfoldable pub to_hex_string : ℕ → List ℕ
to_hex_string n =
    if ltb n 16 then hex_digit n ∷ [] else hex_digit (n / 16) ∷ hex_digit (n % 16) ∷ []

-- The loop of bytesToHexString: two digits for each byte.
unfoldable pub hex_digits : List ℤ → List ℕ
unfolding to_hex_string
hex_digits [] = []
hex_digits (v ∷ vs) =
    let hv = to_hex_string (low_byte v) in
    (if ltb (length hv) 2 then 48 ∷ hv else hv) ++ hex_digits vs

unfoldable pub bytes_to_hex_string : Option (List ℤ) → Option (List ℕ)
unfolding hex_digits
bytes_to_hex_string none = none
bytes_to_hex_string (some []) = none
bytes_to_hex_string (some (v ∷ vs)) = some (hex_digits (v ∷ vs))
