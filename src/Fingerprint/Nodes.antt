-- ===== src/Fingerprint/Nodes.antt =====
-- fingerprint/BiometricsFingerprint.h and the constructor in BiometricsFingerprint.cpp: the display
-- nodes, the properties that tell the sensor apart, and start-up.
use text.Mathlib.Text.{◌==◌ as str_eq, starts_with}
use android_device_realme_sa.Base.{
  Bool, Option, [], false, get_or_else, if◌then◌else◌, is_some, none, some, ℕ, ◌&&◌, ◌==◌,
}
use android_device_realme_sa.Base.Int.{pos, ℤ}
use android_device_realme_sa.Base.Words.{to_u32}
use android_device_realme_sa.Fingerprint.Types.{
  BiometricsFingerprint, ClientCall, Effect, Env, HelperCall, Method, Node, OplusCall,
  RequestStatus, Return, client, dimlayer_path, emit, fp_press_path, helper, oplus, returned,
  sys_einval, write,
}

-- kHwUnavailable
abbrev pub hw_unavailable : Return RequestStatus
hw_unavailable = returned sys_einval

unfoldable pub ensure_oplus_hal : BiometricsFingerprint → Bool
ensure_oplus_hal s = s.oplus_biometrics_fingerprint

-- A write that fails is only logged.
unfoldable set : Node → ℕ → BiometricsFingerprint → BiometricsFingerprint
set path value s = emit s (write path value)

unfoldable get : Env → Node → ℤ → BiometricsFingerprint → ℤ
get env path def s = get_or_else (env.read_int s.trace path) def

-- The private isUdfps() with no argument.
unfoldable is_udfps_sensor : Env → BiometricsFingerprint → Bool
is_udfps_sensor env s =
    str_eq (env.get_property s.trace "persist.vendor.fingerprint.sensor_type" "") "optical"

unfoldable pub is_uff : Env → BiometricsFingerprint → Bool
is_uff env s = starts_with (env.get_property s.trace "persist.vendor.fingerprint.version" "") "UFF "

-- The int that is read back is converted to unsigned for the comparison.
unfoldable pub set_dimlayer_hbm : Env → ℕ → Method Bool
unfolding set get is_udfps_sensor
set_dimlayer_hbm env value s =
    let s' = set dimlayer_path value s in
    (is_udfps_sensor env s' && (to_u32 (get env dimlayer_path (pos 0) s') == value), s')

unfoldable pub set_fp_press : Env → ℕ → Method Bool
unfolding set is_udfps_sensor
set_fp_press env value s = let s' = set fp_press_path value s in (is_udfps_sensor env s', s')

-- The binder is looked up without blocking first, and waited for if it is missing.
unfoldable helper_binder : Env → Option ℕ
helper_binder env = if is_some env.check_service then env.check_service else env.wait_for_service

unfoldable pub construct : Env → BiometricsFingerprint
unfolding helper_binder
construct env = if env.get_service then emit s set_up else s
  where
    set_up : Effect
    set_up = oplus OplusCall.set_hal_callback

    s : BiometricsFingerprint
    s = record {
      oplus_biometrics_fingerprint = env.get_service;
      oplus_udfps_helper = env.from_binder (helper_binder env);
      client_callback = none;
      is_enrolling = false;
      trace = [];
    }

-- One call of the vendor's service, by the type of its answer.
unfoldable pub call_id : Env → OplusCall → Method (Return ℕ)
call_id env c s = (env.oplus_id s.trace c, emit s (oplus c))

unfoldable pub call_status : Env → OplusCall → Method (Return RequestStatus)
call_status env c s = (env.oplus_status s.trace c, emit s (oplus c))

unfoldable pub call_bool : Env → OplusCall → Method (Return Bool)
call_bool env c s = (env.oplus_bool s.trace c, emit s (oplus c))

unfoldable pub call_void : Env → OplusCall → Method (Return (Unit {0}))
call_void env c s = (env.oplus_void s.trace c, emit s (oplus c))

-- `if (mClientCallback == nullptr) return Void(); return mClientCallback->...`
unfoldable pub call_client : Env → ClientCall → Method (Return (Unit {0}))
call_client env c s = elim s.client_callback [
  | none ↦ (returned tt, s)
  | some k ↦ (env.client_void s.trace k c, emit s (client k c))
]

-- `if (mOplusUdfpsHelper != nullptr) mOplusUdfpsHelper->...`
unfoldable pub call_helper : HelperCall → BiometricsFingerprint → BiometricsFingerprint
call_helper c s = if is_some s.oplus_udfps_helper then emit s (helper c) else s
