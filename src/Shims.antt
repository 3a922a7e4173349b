-- ===== src/Shims.antt =====
-- shims/libbase_shim.cpp, shims/libcrypto_shim.cpp and touch/include/TouchscreenGestureConfig.h: what
-- blobs of the vendor and the touch service link against.
--
-- The overload of WriteStringToFd that takes a view, makeBitField and the numbers of the gestures are
-- not part of this repository; they are arguments.
use android_device_realme_sa.Base.{Bool, List, String, [], refl, ℕ, ◌∷◌, ◌≡◌}

-- CBS of libcrypto: a pointer and a length.
record Cbs : Type 0 where
  pub cbs_data : ℕ
  pub len : ℕ

cbs_init : ℕ → ℕ → Cbs → Cbs
cbs_init cbs_data len cbs = record { cbs_data = cbs_data; len = len }

-- A view of the whole string is what it is given.
write_string_to_fd : (String → ℕ → Bool) → String → ℕ → Bool
write_string_to_fd write content fd = write content fd

data Gesture : Type 0 where
  gesture_up_vee gesture_down_vee gesture_left_vee gesture_right_vee gesture_circle : Gesture
  gesture_double_swipe gesture_left_to_right gesture_right_to_left : Gesture
  gesture_up_to_down gesture_down_to_up gesture_m gesture_w : Gesture

-- kSupportedGestures
supported_gestures : (List Gesture → ℕ) → ℕ
supported_gestures make_bit_field = make_bit_field (
    gesture_up_vee ∷ gesture_down_vee ∷ gesture_left_vee ∷ gesture_right_vee ∷ gesture_circle
    ∷ gesture_double_swipe ∷ gesture_left_to_right ∷ gesture_right_to_left ∷ gesture_up_to_down
    ∷ gesture_down_to_up ∷ gesture_m ∷ gesture_w ∷ [])

-- A buffer that was set up reads back what it was given, whatever it held before.
cbs_init_fields :
    (p n : ℕ) (old : Cbs) → ((cbs_init p n old).cbs_data ≡ p) × ((cbs_init p n old).len ≡ n)
unfolding cbs_init
cbs_init_fields p n old = (refl, refl)
