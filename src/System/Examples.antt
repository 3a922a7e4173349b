-- ===== src/System/Examples.antt =====
-- fingerprint/ and syshelper/ together on a concrete history.
use android_device_realme_sa.Base.{List, [], arith, false, none, refl, some, true, ◌++◌, ◌∷◌, ◌≡◌}
use android_device_realme_sa.Fingerprint.Types.{
  BiometricsFingerprint, Env, OplusCall, returned, sys_ok, transport_error,
}
use android_device_realme_sa.Fingerprint.Steps.{request}
use android_device_realme_sa.Syshelper.UdfpsHelper
use android_device_realme_sa.Syshelper.UdfpsHelper.{get_touch_status}
use android_device_realme_sa.Syshelper.Watchdog
use android_device_realme_sa.System.Whole.{SystemEvent, clock_ticks, entry, helper_runs, run_system}
use android_device_realme_sa.System.Expiry.{reported, started_system, unreleased_touch_expires}
use android_device_realme_sa.Syshelper.Types.{ok}
use android_device_realme_sa.System.Touch.{down-reported, last_report}

abbrev quiet_env : Env
quiet_env = record {
  get_property = λ t key def. def;
  read_int = λ t n. none;
  oplus_id = λ t c. returned 0;
  oplus_status = λ t c. returned sys_ok;
  oplus_bool = λ t c. returned false;
  oplus_void = λ t c. transport_error 32;
  client_void = λ t k c. returned tt;
  get_service = true;
  check_service = some 3;
  wait_for_service = none;
  from_binder = λ b. b;
}

abbrev idle_hal : BiometricsFingerprint
idle_hal = record {
  oplus_biometrics_fingerprint = true;
  oplus_udfps_helper = some 3;
  client_callback = none;
  is_enrolling = false;
  trace = [];
}

-- The helper's thread begins to wait.
abbrev begins_to_wait : List SystemEvent
begins_to_wait = helper_runs ∷ helper_runs ∷ helper_runs ∷ []

-- Three seconds, an authentication request in between.
abbrev three_seconds : List SystemEvent
three_seconds =
    clock_ticks ∷ entry (request (OplusCall.authenticate 5 0)) ∷ clock_ticks ∷ clock_ticks ∷ []

abbrev three_steps : List SystemEvent
three_steps = helper_runs ∷ helper_runs ∷ helper_runs ∷ []

unreleased_touch_expires_example :
    UdfpsHelper.get_touch_status
      (run_system quiet_env
        (begins_to_wait ++ (reported 0 [] ∷ (three_steps ++ (three_seconds ++ three_steps))))
        (started_system idle_hal)).service.helper
    ≡ (ok, false)
unfolding run_system Watchdog.step
unreleased_touch_expires_example =
    unreleased_touch_expires quiet_env idle_hal begins_to_wait three_steps three_seconds three_steps
      [] 0 refl refl (refl, (refl, (refl, tt))) (refl, (refl, (refl, (refl, tt))))
      (refl, (refl, (refl, tt))) (omega arith) (omega arith) (omega arith)

-- Reported, and not yet noticed by the thread.
abbrev touched : List SystemEvent
touched = reported 0 [] ∷ clock_ticks ∷ helper_runs ∷ []

down-reported_example : last_report touched false ≡ true
unfolding run_system get_touch_status Watchdog.step
down-reported_example = down-reported quiet_env idle_hal touched refl refl
