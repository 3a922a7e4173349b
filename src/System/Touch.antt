-- ===== src/System/Touch.antt =====
-- fingerprint/ and syshelper/ together: a touch state that is down, over histories of the HAL, the
-- helper's thread and the service's other clients.
use android_device_realme_sa.Base.{
  Bool, List, [], ap, arith, false, if◌then◌else◌, is_some, refl, sym, true, ◌++◌, ◌∙◌, ◌∷◌, ◌≡◌,
}
use android_device_realme_sa.Base.Int.{eq_ℤ}
use android_device_realme_sa.Fingerprint.Types.{BiometricsFingerprint, ClientCall, Env, OplusCall}
use android_device_realme_sa.Fingerprint.Callbacks.{cmd_id_on_touch_down, cmd_id_on_touch_up}
use android_device_realme_sa.Fingerprint.Steps.{
  Entry, deliver, engineering_info, fingerprint_command, register, request,
}
use android_device_realme_sa.Fingerprint.Delivery.{touches}
use android_device_realme_sa.Syshelper.UdfpsHelper
use android_device_realme_sa.Syshelper.Types.{ScopedAStatus, UdfpsHelper, ok}
use android_device_realme_sa.Syshelper.Watchdog.{Thread}
use android_device_realme_sa.Syshelper.Refinement.{Request, down, up}
use android_device_realme_sa.Syshelper.Service.{
  Service, ServiceEvent, call, ends_touch, run_service, second_passes, step_service, thread_runs,
  thread_wakes,
}
use android_device_realme_sa.Syshelper.Expiry.{serve-state, started_service, state_after}
use android_device_realme_sa.System.Whole.{
  SystemEvent, arriving, client_call, clock_ticks, entry, helper_runs, helper_wakes, run_system,
}
use android_device_realme_sa.System.Expiry.{brings, brings_all, run_system-service, started_system}

-- The touch state that an entry of the HAL reports, if it reports one.
abbrev touch_state : Entry → Bool → Bool
touch_state (deliver (ClientCall.on_enroll_result device finger group remaining)) old = false
touch_state (deliver (ClientCall.on_authenticated device finger group token)) old = false
touch_state (fingerprint_command cmd result n) old =
    if eq_ℤ cmd cmd_id_on_touch_down
    then true
    else if eq_ℤ cmd cmd_id_on_touch_up
    then false
    else old
touch_state _ old = old

-- What the last report says: of the HAL's entries, or of another client.
abbrev reports : SystemEvent → Bool → Bool
reports (entry e) old = touch_state e old
reports (client_call down) old = true
reports (client_call up) old = false
reports _ old = old

abbrev pub last_report : List SystemEvent → Bool → Bool
last_report [] old = old
last_report (e ∷ es) old = last_report es (reports e old)

-- The same, as the service sees it.
abbrev tells : ServiceEvent → Bool → Bool
tells (call down) old = true
tells (call up) old = false
tells _ old = old

abbrev told : List ServiceEvent → Bool → Bool
told [] old = old
told (e ∷ es) old = told es (tells e old)

told-append : (es fs : List ServiceEvent) (old : Bool) → told (es ++ fs) old ≡ told fs (told es old)
told-append [] fs old = refl
told-append (e ∷ es) fs old = told-append es fs (tells e old)

told-touches : (e : Entry) (old : Bool) → told (arriving (touches e)) old ≡ touch_state e old
told-touches (request OplusCall.cancel) old = ground arith
told-touches (request c) old = ground arith
told-touches (deliver (ClientCall.on_enroll_result d f g r)) old = refl
told-touches (deliver (ClientCall.on_authenticated d f g r)) old = refl
told-touches (deliver (ClientCall.on_removed d f g r)) old = ground arith
told-touches (deliver c) old = ground arith
told-touches (register k) old = ground arith
told-touches (engineering_info n keys values) old = ground arith
told-touches (fingerprint_command cmd result n) old = ground arith

told-brings : (e : SystemEvent) (old : Bool) → told (brings e) old ≡ reports e old
told-brings (entry e) old = told-touches e old
told-brings (client_call down) old = refl
told-brings (client_call up) old = refl
told-brings (client_call (Request.register address linking reply c)) old = refl
told-brings (client_call (Request.unregister c)) old = refl
told-brings helper_runs old = refl
told-brings clock_ticks old = refl
told-brings helper_wakes old = refl

told-brings_all :
    (es : List SystemEvent) (old : Bool) → told (brings_all es) old ≡ last_report es old
told-brings_all [] old = refl
told-brings_all (e ∷ es) old =
    told-append (brings e) (brings_all es) old
    ∙ ap (told (brings_all es)) (told-brings e old)
    ∙ told-brings_all es (reports e old)

-- A touch state that is down was told.
abbrev WasTold : Bool → Service → Type 0
WasTold b v = v.helper.current_is_down_state ≡ true → b ≡ true

call-WasTold :
    (q : Request) (b : Bool) (v : Service)
    → WasTold b v
    → state_after q v.helper.current_is_down_state ≡ true
    → tells (call q) b ≡ true
unfolding state_after
call-WasTold down b v k e = refl
call-WasTold up b v k e = e
call-WasTold (Request.register address linking reply c) b v k e = k e
call-WasTold (Request.unregister c) b v k e = k e

ends_touch-down :
    (k : Thread) (h : UdfpsHelper)
    → (ends_touch k h).current_is_down_state ≡ true
    → h.current_is_down_state ≡ true
unfolding ends_touch
ends_touch-down k h e = ground arith

step-WasTold :
    (e : ServiceEvent) (b : Bool) (v : Service)
    → WasTold b v
    → WasTold (tells e b) (step_service e v)
unfolding step_service
step-WasTold (call q) b v k = λ e. call-WasTold q b v k (sym (serve-state q v.helper) ∙ e)
step-WasTold thread_runs b v k = λ e. k (ends_touch-down v.watch.thread v.helper e)
step-WasTold second_passes b v k = k
step-WasTold thread_wakes b v k = k

run-WasTold :
    (es : List ServiceEvent) (b : Bool) (v : Service)
    → WasTold b v
    → WasTold (told es b) (run_service es v)
unfolding run_service
run-WasTold [] b v k = k
run-WasTold (e ∷ es) b v k = run-WasTold es (tells e b) (step_service e v) (step-WasTold e b v k)

-- The HAL with the helper there, the helper's thread and the service's other clients, in any order: where
-- the helper reports that a finger is down, the last report that it was sent is a touch: by a
-- touch-down command to the HAL, with no touch-up command, enrolment result or match report of the
-- vendor's service after it, or by another client.
pub down-reported :
    (env : Env) (s : BiometricsFingerprint) (es : List SystemEvent)
    → is_some s.oplus_udfps_helper ≡ true
    → UdfpsHelper.get_touch_status (run_system env es (started_system s)).service.helper
      ≡ (ok, true)
    → last_report es false ≡ true
unfolding UdfpsHelper.get_touch_status
down-reported env s es there e =
    let service = run_system-service env es (started_system s) there in
    let state =
      sym (ap (λ (v : Service). v.helper.current_is_down_state) service)
      ∙ ap (λ (o : ScopedAStatus × Bool). o.1) e in
    sym (told-brings_all es false)
    ∙ run-WasTold (brings_all es) false started_service (unfold UdfpsHelper.construct in λ h. h)
        state
