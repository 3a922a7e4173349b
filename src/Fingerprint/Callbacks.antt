-- ===== src/Fingerprint/Callbacks.antt =====
-- fingerprint/BiometricsFingerprint.cpp: the callbacks of the vendor's service.
use android_device_realme_sa.Base.{List, String, if◌then◌else◌, is_some, length, ℕ, ◌==◌}
use android_device_realme_sa.Base.Int.{eq_ℤ, pos, ℤ}
use android_device_realme_sa.Fingerprint.Types.{
  ClientCall, Env, Method, Return, returned, touch_down, touch_up,
}
use android_device_realme_sa.Fingerprint.Nodes.{
  call_client, call_helper, set_dimlayer_hbm, set_fp_press,
}

-- fingerprint_callback_cmd_Id
abbrev pub cmd_id_on_touch_down : ℤ
cmd_id_on_touch_down = pos 1201

abbrev pub cmd_id_on_touch_up : ℤ
cmd_id_on_touch_up = pos 1202

unfoldable pub on_enroll_result : Env → ℕ → ℕ → ℕ → ℕ → Method (Return (Unit {0}))
unfolding call_client call_helper
on_enroll_result env device_id finger_id group_id remaining s =
    call_client env (ClientCall.on_enroll_result device_id finger_id group_id remaining)
      (call_helper touch_up s)

unfoldable pub on_acquired : Env → ℕ → ℕ → ℤ → Method (Return (Unit {0}))
unfolding call_client
on_acquired env device_id acquired_info vendor_code s =
    call_client env (ClientCall.on_acquired device_id acquired_info vendor_code) s

unfoldable pub on_authenticated : Env → ℕ → ℕ → ℕ → List ℕ → Method (Return (Unit {0}))
unfolding call_client call_helper set_dimlayer_hbm set_fp_press
on_authenticated env device_id finger_id group_id token s =
    let dimmed = if finger_id == 0 then s else (set_dimlayer_hbm env 0 s).1 in
    let released = (set_fp_press env 0 dimmed).1 in
    call_client env (ClientCall.on_authenticated device_id finger_id group_id token)
      (call_helper touch_up released)

unfoldable pub on_error : Env → ℕ → ℕ → ℤ → Method (Return (Unit {0}))
unfolding call_client set_dimlayer_hbm set_fp_press
on_error env device_id code vendor_code s =
    let released = (set_fp_press env 0 s).1 in
    call_client env (ClientCall.on_error device_id code vendor_code)
      (if released.is_enrolling then released else (set_dimlayer_hbm env 0 released).1)

unfoldable pub on_removed : Env → ℕ → ℕ → ℕ → ℕ → Method (Return (Unit {0}))
unfolding call_client
on_removed env device_id finger_id group_id remaining s =
    call_client env (ClientCall.on_removed device_id finger_id group_id remaining) s

unfoldable pub on_enumerate : Env → ℕ → ℕ → ℕ → ℕ → Method (Return (Unit {0}))
unfolding call_client
on_enumerate env device_id finger_id group_id remaining s =
    call_client env (ClientCall.on_enumerate device_id finger_id group_id remaining) s

-- The client pointer is reinterpreted as one of version 2.2.
unfoldable pub on_acquired_2_2 : Env → ℕ → ℕ → ℤ → Method (Return (Unit {0}))
unfolding call_client
on_acquired_2_2 env device_id acquired_info vendor_code s =
    call_client env (ClientCall.on_acquired_2_2 device_id acquired_info vendor_code) s

unfoldable pub on_engineering_info_updated :
    Env → ℕ → List ℕ → List String → Method (Return (Unit {0}))
on_engineering_info_updated env length keys values s = (returned tt, s)

unfoldable pub on_fingerprint_cmd : Env → ℤ → List ℕ → ℕ → Method (Return (Unit {0}))
unfolding call_helper
on_fingerprint_cmd env cmd_id result result_len s =
    if is_some s.oplus_udfps_helper
    then (
      returned tt,
      if eq_ℤ cmd_id cmd_id_on_touch_down
          then call_helper touch_down s
          else if eq_ℤ cmd_id cmd_id_on_touch_up
          then call_helper touch_up s
          else s,
    )
    else (returned tt, s)
