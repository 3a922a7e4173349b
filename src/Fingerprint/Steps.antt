-- ===== src/Fingerprint/Steps.antt =====
-- fingerprint/BiometricsFingerprint.cpp: every entry point of the HAL as one step, and histories.
--
-- The service runs one RPC thread (fingerprint/service.cpp), so entries do not interleave.
use android_device_realme_sa.Base.{List, Option, String, [], ℕ, ◌∷◌}
use android_device_realme_sa.Base.Int.{ℤ}
use android_device_realme_sa.Fingerprint.Requests.{
  authenticate, cancel, enroll, enumerate, get_authenticator_id, is_udfps, on_finger_down,
  on_finger_up, post_enroll, pre_enroll, remove, set_active_group, set_notify,
}
use android_device_realme_sa.Fingerprint.Callbacks.{
  on_acquired, on_acquired_2_2, on_authenticated, on_engineering_info_updated, on_enroll_result,
  on_enumerate, on_error, on_fingerprint_cmd, on_removed,
}
use android_device_realme_sa.Fingerprint.Types.{BiometricsFingerprint, ClientCall, Env, OplusCall}

pub data Entry : Type 0 where
  request : OplusCall → Entry
  register : Option ℕ → Entry
  deliver : ClientCall → Entry
  engineering_info : ℕ → List ℕ → List String → Entry
  fingerprint_command : ℤ → List ℕ → ℕ → Entry

-- A request of the framework; the first two are no entry points (see `register` for setNotify).
unfoldable pub serve : Env → OplusCall → BiometricsFingerprint → BiometricsFingerprint
unfolding pre_enroll enroll post_enroll get_authenticator_id cancel enumerate remove
    set_active_group authenticate is_udfps on_finger_down on_finger_up
serve env OplusCall.set_hal_callback s = s
serve env OplusCall.set_notify s = s
serve env OplusCall.pre_enroll s = (pre_enroll env s).1
serve env (OplusCall.enroll hat gid timeout) s = (enroll env hat gid timeout s).1
serve env OplusCall.post_enroll s = (post_enroll env s).1
serve env OplusCall.get_authenticator_id s = (get_authenticator_id env s).1
serve env OplusCall.cancel s = (cancel env s).1
serve env OplusCall.enumerate s = (enumerate env s).1
serve env (OplusCall.remove gid fid) s = (remove env gid fid s).1
serve env (OplusCall.set_active_group gid path) s = (set_active_group env gid path s).1
serve env (OplusCall.authenticate operation gid) s = (authenticate env operation gid s).1
serve env (OplusCall.is_udfps sensor) s = (is_udfps env sensor s).1
serve env (OplusCall.on_finger_down x y minor major) s = (on_finger_down env x y minor major s).1
serve env OplusCall.on_finger_up s = (on_finger_up env s).1

-- A callback of the vendor's service.
unfoldable pub relay : Env → ClientCall → BiometricsFingerprint → BiometricsFingerprint
unfolding on_enroll_result on_acquired on_authenticated on_error on_removed on_enumerate
    on_acquired_2_2
relay env (ClientCall.on_enroll_result device finger group remaining) s =
    (on_enroll_result env device finger group remaining s).1
relay env (ClientCall.on_acquired device info vendor) s = (on_acquired env device info vendor s).1
relay env (ClientCall.on_authenticated device finger group token) s =
    (on_authenticated env device finger group token s).1
relay env (ClientCall.on_error device code vendor) s = (on_error env device code vendor s).1
relay env (ClientCall.on_removed device finger group remaining) s =
    (on_removed env device finger group remaining s).1
relay env (ClientCall.on_enumerate device finger group remaining) s =
    (on_enumerate env device finger group remaining s).1
relay env (ClientCall.on_acquired_2_2 device info vendor) s =
    (on_acquired_2_2 env device info vendor s).1

unfoldable pub step : Env → Entry → BiometricsFingerprint → BiometricsFingerprint
unfolding serve relay set_notify on_engineering_info_updated on_fingerprint_cmd
step env (request c) s = serve env c s
step env (register k) s = (set_notify env k s).1
step env (deliver c) s = relay env c s
step env (engineering_info n keys values) s = (on_engineering_info_updated env n keys values s).1
step env (fingerprint_command cmd result n) s = (on_fingerprint_cmd env cmd result n s).1

unfoldable pub run : Env → List Entry → BiometricsFingerprint → BiometricsFingerprint
run env [] s = s
run env (e ∷ es) s = run env es (step env e s)
