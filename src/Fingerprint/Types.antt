-- ===== src/Fingerprint/Types.antt =====
-- fingerprint/BiometricsFingerprint.h: the HAL's fields, the calls that it makes, and what it reads
-- of its surroundings.
--
-- Every call that leaves the HAL is an entry of `trace`, newest first. The vendor's service, the
-- client, the properties and the sysfs nodes are not part of this repository: `Env` gives their
-- answers as arbitrary functions of the history of calls.
use android_device_realme_sa.Base.{Bool, List, Option, String, ℕ, ◌∷◌}
use android_device_realme_sa.Base.Int.{ℤ}

-- Return<T> of HIDL: a value, or a failed transaction with its code.
pub data Return (A : Type 0) : Type 0 where
  returned : A → Return A
  transport_error : ℕ → Return A

-- RequestStatus; the code names SYS_EINVAL only.
pub data RequestStatus : Type 0 where
  sys_ok sys_einval : RequestStatus
  sys_other : ℕ → RequestStatus

-- FP_PRESS_PATH and DIMLAYER_PATH.
pub data Node : Type 0 where
  fp_press_path dimlayer_path : Node

node_path : Node → String
node_path fp_press_path = "/sys/kernel/oppo_display/notify_fppress"
node_path dimlayer_path = "/sys/kernel/oppo_display/dimlayer_hbm"

-- Calls of the vendor's IBiometricsFingerprint. A float argument is its bit pattern, and the
-- hardware token is its bytes: the HAL passes them on.
pub data OplusCall : Type 0 where
  set_hal_callback : OplusCall
  set_notify : OplusCall
  pre_enroll : OplusCall
  enroll : List ℕ → ℕ → ℕ → OplusCall
  post_enroll : OplusCall
  get_authenticator_id : OplusCall
  cancel : OplusCall
  enumerate : OplusCall
  remove : ℕ → ℕ → OplusCall
  set_active_group : ℕ → String → OplusCall
  authenticate : ℕ → ℕ → OplusCall
  is_udfps : ℕ → OplusCall
  on_finger_down : ℕ → ℕ → ℕ → ℕ → OplusCall
  on_finger_up : OplusCall

-- Calls of the framework's IBiometricsFingerprintClientCallback.
pub data ClientCall : Type 0 where
  on_enroll_result : ℕ → ℕ → ℕ → ℕ → ClientCall
  on_acquired : ℕ → ℕ → ℤ → ClientCall
  on_authenticated : ℕ → ℕ → ℕ → List ℕ → ClientCall
  on_error : ℕ → ℕ → ℤ → ClientCall
  on_removed : ℕ → ℕ → ℕ → ℕ → ClientCall
  on_enumerate : ℕ → ℕ → ℕ → ℕ → ClientCall
  on_acquired_2_2 : ℕ → ℕ → ℤ → ClientCall

-- Calls of IUdfpsHelper.
pub data HelperCall : Type 0 where
  touch_down touch_up : HelperCall

pub data Effect : Type 0 where
  write : Node → ℕ → Effect
  oplus : OplusCall → Effect
  client : ℕ → ClientCall → Effect
  helper : HelperCall → Effect

-- Newest first.
abbrev pub Trace : Type 0
Trace = List Effect

-- What the HAL reads or is answered after a history of calls. `read_int` is `file >> result` on a
-- fresh ifstream, with `none` for a stream that fails; binders are numbers.
pub record Env : Type 0 where
  pub get_property : Trace → String → String → String
  pub read_int : Trace → Node → Option ℤ
  pub oplus_id : Trace → OplusCall → Return ℕ
  pub oplus_status : Trace → OplusCall → Return RequestStatus
  pub oplus_bool : Trace → OplusCall → Return Bool
  pub oplus_void : Trace → OplusCall → Return (Unit {0})
  pub client_void : Trace → ℕ → ClientCall → Return (Unit {0})
  pub get_service : Bool
  pub check_service : Option ℕ
  pub wait_for_service : Option ℕ
  pub from_binder : Option ℕ → Option ℕ

-- `oplus_biometrics_fingerprint` tells whether the pointer is set; a client is a number.
pub record BiometricsFingerprint : Type 0 where
  pub oplus_biometrics_fingerprint : Bool
  pub oplus_udfps_helper : Option ℕ
  pub client_callback : Option ℕ
  pub is_enrolling : Bool
  pub trace : Trace

abbrev pub emit : BiometricsFingerprint → Effect → BiometricsFingerprint
emit s e = record s { trace = e ∷ s.trace }

-- A method returns its result and the HAL after it.
abbrev pub Method : Type 0 → Type 0
Method A = BiometricsFingerprint → A × BiometricsFingerprint
