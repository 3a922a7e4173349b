-- ===== src/Fingerprint/Examples.antt =====
-- fingerprint/: the HAL at work on concrete histories.
use text.Mathlib.Text.{◌==◌ as str_eq}
use android_device_realme_sa.Base.{List, [], false, if◌then◌else◌, none, refl, some, true, ◌∷◌, ◌≡◌}
use android_device_realme_sa.Base.Int.{pos}
use android_device_realme_sa.Fingerprint.Nodes.{construct, is_uff}
use android_device_realme_sa.Fingerprint.Types.{
  BiometricsFingerprint, ClientCall, Env, HelperCall, OplusCall, client, dimlayer_path,
  fp_press_path, helper, oplus, returned, sys_ok, write,
}
use android_device_realme_sa.Fingerprint.Steps.{
  Entry, deliver, fingerprint_command, register, request, run, step,
}
use android_device_realme_sa.Fingerprint.Display.{last_write, panel, run-panel, run_panel}
use android_device_realme_sa.Fingerprint.Light.{dark_after_finger_up, lit_while_enrolling}
use android_device_realme_sa.Fingerprint.Forwarding.{
  IsUff, forwarded, oplus_calls, run-calls, run_unavailable,
}
use android_device_realme_sa.Fingerprint.Delivery.{
  client_calls, delivered, helper_calls, run-delivered, run-touched, touched,
}

-- An optical sensor that is no UFF; every service is there and answers with success.
abbrev samurai_env : Env
samurai_env = record {
  get_property = λ t key def.
      if str_eq key "persist.vendor.fingerprint.sensor_type" then "optical" else "G_OPTICAL";
  read_int = λ t n. some (pos 1);
  oplus_id = λ t c. returned 7;
  oplus_status = λ t c. returned sys_ok;
  oplus_bool = λ t c. returned true;
  oplus_void = λ t c. returned tt;
  client_void = λ t k c. returned tt;
  get_service = true;
  check_service = none;
  wait_for_service = some 3;
  from_binder = λ b. b;
}

abbrev hal : BiometricsFingerprint
hal = record {
  oplus_biometrics_fingerprint = true;
  oplus_udfps_helper = some 3;
  client_callback = some 9;
  is_enrolling = false;
  trace = [];
}

abbrev orphan : BiometricsFingerprint
orphan = record hal { oplus_biometrics_fingerprint = false }

abbrev enrolment : List Entry
enrolment =
    register (some 9)
    ∷ request OplusCall.pre_enroll
    ∷ request (OplusCall.enroll (1 ∷ 2 ∷ []) 0 60)
    ∷ request (OplusCall.on_finger_down 540 2000 0 0)
    ∷ fingerprint_command (pos 1201) [] 0
    ∷ deliver (ClientCall.on_enroll_result 1 5 0 0)
    ∷ request OplusCall.on_finger_up
    ∷ []

constructs : (construct samurai_env).trace ≡ oplus OplusCall.set_hal_callback ∷ []
unfolding construct
constructs = refl

-- The whole enrolment, newest call first.
enrolment_trace :
    (run samurai_env enrolment hal).trace
    ≡ oplus OplusCall.on_finger_up
      ∷ write fp_press_path 0
      ∷ client 9 (ClientCall.on_enroll_result 1 5 0 0)
      ∷ helper HelperCall.touch_up
      ∷ helper HelperCall.touch_down
      ∷ oplus (OplusCall.on_finger_down 540 2000 0 0)
      ∷ write fp_press_path 1
      ∷ oplus (OplusCall.enroll (1 ∷ 2 ∷ []) 0 60)
      ∷ write dimlayer_path 1
      ∷ oplus OplusCall.pre_enroll
      ∷ write dimlayer_path 1
      ∷ oplus OplusCall.set_notify
      ∷ []
unfolding run step
enrolment_trace = refl

lit_while_enrolling_example :
    last_write dimlayer_path (run samurai_env enrolment (construct samurai_env)).trace ≡ some 1
lit_while_enrolling_example =
    lit_while_enrolling samurai_env enrolment refl (unfold run step construct in refl)

abbrev failed_match : List Entry
failed_match =
    deliver (ClientCall.on_authenticated 1 0 0 [])
    ∷ deliver (ClientCall.on_error 1 5 (pos 0))
    ∷ request OplusCall.cancel
    ∷ []

dark_after_finger_up_example :
    let t = run samurai_env (request OplusCall.on_finger_up ∷ failed_match) hal in
    (last_write dimlayer_path t.trace ≡ some 0)
    × (last_write fp_press_path t.trace ≡ some 0)
    × (t.is_enrolling ≡ false)
dark_after_finger_up_example = dark_after_finger_up samurai_env failed_match hal refl refl

run-panel_example : panel (run samurai_env enrolment hal) ≡ run_panel true enrolment (panel hal)
run-panel_example = run-panel samurai_env enrolment hal

samurai_env-IsUff : IsUff samurai_env false
unfolding is_uff
samurai_env-IsUff s = refl

run-calls_example : oplus_calls (run samurai_env enrolment hal).trace ≡ forwarded false enrolment []
run-calls_example = run-calls samurai_env false samurai_env-IsUff enrolment hal refl

run_unavailable_example :
    (oplus_calls (run samurai_env enrolment orphan).trace ≡ oplus_calls orphan.trace)
    × ((run samurai_env enrolment orphan).is_enrolling ≡ orphan.is_enrolling)
run_unavailable_example = run_unavailable samurai_env enrolment orphan refl

run-delivered_example :
    client_calls (run samurai_env enrolment hal).trace ≡ delivered (some 9) enrolment []
run-delivered_example = run-delivered samurai_env enrolment hal

run-touched_example : helper_calls (run samurai_env enrolment hal).trace ≡ touched enrolment []
run-touched_example = run-touched samurai_env enrolment hal refl
