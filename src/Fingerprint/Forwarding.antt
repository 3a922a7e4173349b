-- ===== src/Fingerprint/Forwarding.antt =====
-- fingerprint/: which calls reach the vendor's service, and what happens without it.
use android_device_realme_sa.Base.{
  Bool, List, [], ap, arith, false, if◌then◌else◌, refl, true, ◌++◌, ◌∙◌, ◌∷◌, ◌≡◌,
}
use android_device_realme_sa.Fingerprint.Nodes.{is_uff}
use android_device_realme_sa.Fingerprint.Types.{
  BiometricsFingerprint, ClientCall, Env, OplusCall, Trace, client, dimlayer_path, fp_press_path,
  helper, oplus, write,
}
use android_device_realme_sa.Fingerprint.Requests
use android_device_realme_sa.Fingerprint.Display.{step-oplus}
use android_device_realme_sa.Fingerprint.Steps.{
  Entry, deliver, engineering_info, fingerprint_command, register, request, run, serve, step,
}

-- The calls of the vendor's service in a history, newest first.
abbrev pub oplus_calls : Trace → List OplusCall
oplus_calls [] = []
oplus_calls (oplus c ∷ t) = c ∷ oplus_calls t
oplus_calls (write n v ∷ t) = oplus_calls t
oplus_calls (client k c ∷ t) = oplus_calls t
oplus_calls (helper c ∷ t) = oplus_calls t

-- What an entry forwards when the service is there, on a sensor that is or is not UFF.
abbrev forwards : Bool → Entry → List OplusCall
forwards uff (request OplusCall.set_hal_callback) = []
forwards uff (request OplusCall.set_notify) = []
forwards uff (request (OplusCall.on_finger_down x y minor major)) =
    if uff then [] else OplusCall.on_finger_down x y minor major ∷ []
forwards uff (request OplusCall.on_finger_up) = if uff then [] else OplusCall.on_finger_up ∷ []
forwards uff (request c) = c ∷ []
forwards uff (register k) = OplusCall.set_notify ∷ []
forwards uff _ = []

-- The calls that a history forwards, newest first.
pub forwarded : Bool → List Entry → List OplusCall → List OplusCall
forwarded uff [] cs = cs
forwarded uff (e ∷ es) cs = forwarded uff es (forwards uff e ++ cs)

-- The version property tells a UFF sensor apart, whenever it is read.
abbrev pub IsUff : Env → Bool → Type 0
IsUff env uff = (s : BiometricsFingerprint) → is_uff env s ≡ uff

module _ (env : Env) (uff : Bool) (sensor : IsUff env uff) where
  forward_finger-calls :
      (c : OplusCall) (s : BiometricsFingerprint)
      → s.oplus_biometrics_fingerprint ≡ true
      → oplus_calls (Requests.forward_finger env c s).1.trace
        ≡ (if uff then [] else c ∷ []) ++ oplus_calls s.trace
  unfolding Requests.forward_finger
  forward_finger-calls c s h = ground (arith, sensor s)

  serve-calls :
      (c : OplusCall) (s : BiometricsFingerprint)
      → s.oplus_biometrics_fingerprint ≡ true
      → oplus_calls (serve env c s).trace ≡ forwards uff (request c) ++ oplus_calls s.trace
  unfolding serve
  serve-calls OplusCall.set_hal_callback s h = refl
  serve-calls (OplusCall.on_finger_down x y minor major) s h = ground (
    arith,
    sensor (serve env (OplusCall.on_finger_down x y minor major) s),
    sensor (record s { trace = write fp_press_path 1 ∷ s.trace }),
    sensor (record s { trace = write fp_press_path 1 ∷ write dimlayer_path 1 ∷ s.trace }),
  )
  serve-calls OplusCall.on_finger_up s h = ground (
    arith,
    sensor (record s { trace = write fp_press_path 0 ∷ s.trace }),
    sensor (record s { trace = write dimlayer_path 0 ∷ write fp_press_path 0 ∷ s.trace }),
  )
  serve-calls c s h = ground arith

  step-calls :
      (e : Entry) (s : BiometricsFingerprint)
      → s.oplus_biometrics_fingerprint ≡ true
      → oplus_calls (step env e s).trace ≡ forwards uff e ++ oplus_calls s.trace
  unfolding step
  step-calls (request c) s h = serve-calls c s h
  step-calls (deliver (ClientCall.on_removed d f g r)) s h = ground arith
  step-calls (deliver c) s h = ground arith
  step-calls (register k) s h = ground arith
  step-calls (engineering_info n keys values) s h = refl
  step-calls (fingerprint_command cmd result n) s h = ground arith

  -- With the service there, a history calls it exactly once for each request and each setNotify, in
  -- order and with the same arguments, but for finger events, which a UFF sensor is never sent.
  pub run-calls :
      (es : List Entry) (s : BiometricsFingerprint)
      → s.oplus_biometrics_fingerprint ≡ true
      → oplus_calls (run env es s).trace ≡ forwarded uff es (oplus_calls s.trace)
  unfolding run forwarded
  run-calls [] s h = refl
  run-calls (e ∷ es) s h =
      run-calls es (step env e s) (step-oplus env e s ∙ h)
      ∙ ap (forwarded uff es) (step-calls e s h)

step_unavailable-calls :
    (env : Env) (e : Entry) (s : BiometricsFingerprint)
    → s.oplus_biometrics_fingerprint ≡ false
    → (oplus_calls (step env e s).trace ≡ oplus_calls s.trace)
      × ((step env e s).is_enrolling ≡ s.is_enrolling)
unfolding step
step_unavailable-calls env (request OplusCall.set_hal_callback) s h = ground arith
step_unavailable-calls env (request c) s h = ground arith
step_unavailable-calls env (deliver (ClientCall.on_removed d f g r)) s h = ground arith
step_unavailable-calls env (deliver c) s h = ground arith
step_unavailable-calls env (register k) s h = ground arith
step_unavailable-calls env (engineering_info n keys values) s h = (refl, refl)
step_unavailable-calls env (fingerprint_command cmd result n) s h = ground arith

-- Where the vendor's service is not there, no history of requests, callbacks and other entries calls it,
-- or starts or ends an enrolment.
pub run_unavailable :
    (env : Env) (es : List Entry) (s : BiometricsFingerprint)
    → s.oplus_biometrics_fingerprint ≡ false
    → (oplus_calls (run env es s).trace ≡ oplus_calls s.trace)
      × ((run env es s).is_enrolling ≡ s.is_enrolling)
unfolding run
run_unavailable env [] s h = (refl, refl)
run_unavailable env (e ∷ es) s h =
    let (calls, enrolling) = run_unavailable env es (step env e s) (step-oplus env e s ∙ h) in
    let (calls', enrolling') = step_unavailable-calls env e s h in
    (calls ∙ calls', enrolling ∙ enrolling')
