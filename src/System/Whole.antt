-- ===== src/System/Whole.antt =====
-- fingerprint/ and syshelper/ together: the HAL, the helper service with its thread, and the service's
-- other clients, in any order.
use android_device_realme_sa.Base.{List, [], length, take, ◌++◌, ◌-◌, ◌∷◌}
use android_device_realme_sa.Fingerprint.Steps
use android_device_realme_sa.Fingerprint.Delivery.{helper_calls}
use android_device_realme_sa.Syshelper.Service
use android_device_realme_sa.Syshelper.Service.{
  Service, ServiceEvent, call, second_passes, thread_runs, thread_wakes,
}
use android_device_realme_sa.Syshelper.Refinement.{Request, down, up}
use android_device_realme_sa.Fingerprint.Steps.{Entry}
use android_device_realme_sa.Fingerprint.Types.{BiometricsFingerprint, Env, HelperCall}

pub record System : Type 0 where
  pub hal : BiometricsFingerprint
  pub service : Service

pub data SystemEvent : Type 0 where
  entry : Entry → SystemEvent
  client_call : Request → SystemEvent
  helper_runs clock_ticks helper_wakes : SystemEvent

abbrev pub request_of : HelperCall → Request
request_of HelperCall.touch_down = down
request_of HelperCall.touch_up = up

-- Calls of the HAL, given newest first, as they reach the service.
abbrev pub arriving : List HelperCall → List ServiceEvent
arriving [] = []
arriving (c ∷ cs) = arriving cs ++ call (request_of c) ∷ []

-- The calls of the helper by which a trace is longer than another.
abbrev pub new_calls : List HelperCall → List HelperCall → List HelperCall
new_calls old now = take (length now - length old) now

-- What the service sees of an event.
unfoldable pub service_events : Env → SystemEvent → BiometricsFingerprint → List ServiceEvent
unfolding Steps.step
service_events env (entry e) s =
    arriving (new_calls (helper_calls s.trace) (helper_calls (Steps.step env e s).trace))
service_events env (client_call q) s = call q ∷ []
service_events env helper_runs s = thread_runs ∷ []
service_events env clock_ticks s = second_passes ∷ []
service_events env helper_wakes s = thread_wakes ∷ []

unfoldable pub hal_after : Env → SystemEvent → BiometricsFingerprint → BiometricsFingerprint
unfolding Steps.step
hal_after env (entry e) s = Steps.step env e s
hal_after env _ s = s

unfoldable pub step_system : Env → SystemEvent → System → System
unfolding service_events hal_after Service.run_service
step_system env e y = record {
  hal = hal_after env e y.hal;
  service = Service.run_service (service_events env e y.hal) y.service;
}

unfoldable pub run_system : Env → List SystemEvent → System → System
unfolding step_system
run_system env [] y = y
run_system env (e ∷ es) y = run_system env es (step_system env e y)
