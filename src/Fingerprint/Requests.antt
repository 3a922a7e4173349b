-- ===== src/Fingerprint/Requests.antt =====
-- fingerprint/BiometricsFingerprint.cpp: the requests of the framework.
use android_device_realme_sa.Base.{
  Bool, List, Option, String, false, if◌then◌else◌, not, true, ℕ, ◌||◌,
}
use android_device_realme_sa.Fingerprint.Types.{
  Env, Method, OplusCall, RequestStatus, Return, returned,
}
use android_device_realme_sa.Fingerprint.Nodes.{
  call_bool, call_id, call_status, call_void, ensure_oplus_hal, hw_unavailable, is_uff,
  set_dimlayer_hbm, set_fp_press,
}

unfoldable pub set_notify : Env → Option ℕ → Method (Return ℕ)
unfolding call_id ensure_oplus_hal
set_notify env client_callback s =
    let s' = record s { client_callback = client_callback } in
    if ensure_oplus_hal s' then call_id env OplusCall.set_notify s' else (returned 0, s')

unfoldable pub pre_enroll : Env → Method (Return ℕ)
unfolding call_id ensure_oplus_hal set_dimlayer_hbm
pre_enroll env s =
    if ensure_oplus_hal s
    then call_id env OplusCall.pre_enroll
        (set_dimlayer_hbm env 1 (record s { is_enrolling = true })).1
    else (returned 0, s)

unfoldable pub enroll : Env → List ℕ → ℕ → ℕ → Method (Return RequestStatus)
unfolding call_status ensure_oplus_hal set_dimlayer_hbm
enroll env hat gid timeout_sec s =
    if ensure_oplus_hal s
    then call_status env (OplusCall.enroll hat gid timeout_sec) (set_dimlayer_hbm env 1 s).1
    else (hw_unavailable, s)

unfoldable pub post_enroll : Env → Method (Return RequestStatus)
unfolding call_status ensure_oplus_hal set_dimlayer_hbm
post_enroll env s =
    if ensure_oplus_hal s
    then call_status env OplusCall.post_enroll
        (set_dimlayer_hbm env 0 (record s { is_enrolling = false })).1
    else (hw_unavailable, s)

unfoldable pub get_authenticator_id : Env → Method (Return ℕ)
unfolding call_id ensure_oplus_hal
get_authenticator_id env s =
    if ensure_oplus_hal s then call_id env OplusCall.get_authenticator_id s else (returned 0, s)

unfoldable pub cancel : Env → Method (Return RequestStatus)
unfolding call_status ensure_oplus_hal set_dimlayer_hbm
cancel env s =
    if ensure_oplus_hal s
    then call_status env OplusCall.cancel
        (if s.is_enrolling then s else (set_dimlayer_hbm env 0 s).1)
    else (hw_unavailable, s)

unfoldable pub enumerate : Env → Method (Return RequestStatus)
unfolding call_status ensure_oplus_hal
enumerate env s =
    if ensure_oplus_hal s then call_status env OplusCall.enumerate s else (hw_unavailable, s)

unfoldable pub remove : Env → ℕ → ℕ → Method (Return RequestStatus)
unfolding call_status ensure_oplus_hal
remove env gid fid s =
    if ensure_oplus_hal s then call_status env (OplusCall.remove gid fid) s else (hw_unavailable, s)

unfoldable pub set_active_group : Env → ℕ → String → Method (Return RequestStatus)
unfolding call_status ensure_oplus_hal
set_active_group env gid store_path s =
    if ensure_oplus_hal s
    then call_status env (OplusCall.set_active_group gid store_path) s
    else (hw_unavailable, s)

unfoldable pub authenticate : Env → ℕ → ℕ → Method (Return RequestStatus)
unfolding call_status ensure_oplus_hal
authenticate env operation_id gid s =
    if ensure_oplus_hal s
    then call_status env (OplusCall.authenticate operation_id gid)
        (record s { is_enrolling = false })
    else (hw_unavailable, s)

unfoldable pub is_udfps : Env → ℕ → Method (Return Bool)
unfolding call_bool ensure_oplus_hal
is_udfps env sensor_id s =
    if ensure_oplus_hal s
    then call_bool env (OplusCall.is_udfps sensor_id) s
    else (returned false, s)

-- The part of onFingerDown and onFingerUp that forwards the event.
unfoldable pub forward_finger : Env → OplusCall → Method (Return (Unit {0}))
unfolding call_void ensure_oplus_hal is_uff
forward_finger env c s =
    if is_uff env s || not (ensure_oplus_hal s) then (returned tt, s) else call_void env c s

unfoldable pub on_finger_down : Env → ℕ → ℕ → ℕ → ℕ → Method (Return (Unit {0}))
unfolding forward_finger set_dimlayer_hbm set_fp_press
on_finger_down env x y minor major s =
    let lit = if s.is_enrolling then s else (set_dimlayer_hbm env 1 s).1 in
    forward_finger env (OplusCall.on_finger_down x y minor major) (set_fp_press env 1 lit).1

unfoldable pub on_finger_up : Env → Method (Return (Unit {0}))
unfolding forward_finger set_dimlayer_hbm set_fp_press
on_finger_up env s =
    let released = (set_fp_press env 0 s).1 in
    forward_finger env OplusCall.on_finger_up
      (if released.is_enrolling then released else (set_dimlayer_hbm env 0 released).1)
