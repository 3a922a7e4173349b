-- ===== src/System/Expiry.antt =====
-- fingerprint/ and syshelper/ together: touches that the HAL reports, over histories of both.
use mathlib.Core.List.{append_assoc}
use android_device_realme_sa.Base.{
  All, Bool, List, [], ap, arith, false, is_empty, is_some, length, length-append, refl, subst, suc,
  sym, take, take-append, true, ℕ, ◌++◌, ◌-◌, ◌∙◌, ◌∷◌, ◌≡◌, ◌≤◌,
}
use android_device_realme_sa.Fingerprint.Steps.{fingerprint_command}
use android_device_realme_sa.Fingerprint.Callbacks.{cmd_id_on_touch_down}
use android_device_realme_sa.Fingerprint.Delivery.{helper_calls, step-touches, touches}
use android_device_realme_sa.Syshelper.Service.{
  Service, ServiceEvent, call, run_service, second_passes, seen, step_service, thread_runs,
  thread_wakes,
}
use android_device_realme_sa.Syshelper.Expiry.{AllCalm, seen_all, started_service, touch_expires}
use android_device_realme_sa.Syshelper.UdfpsHelper
use android_device_realme_sa.Syshelper.Noticing.{is_committed}
use android_device_realme_sa.System.Whole.{
  System, SystemEvent, arriving, client_call, clock_ticks, entry, hal_after, helper_runs,
  helper_wakes, new_calls, run_system, service_events, step_system,
}
use android_device_realme_sa.Syshelper.Types.{Callback, ok}
use android_device_realme_sa.Syshelper.Timing.{thread_steps, ticks}
use android_device_realme_sa.Syshelper.Refinement.{Request, down, up}
use android_device_realme_sa.Fingerprint.Types.{BiometricsFingerprint, Env, HelperCall}

-- With the helper there, what an event brings to the service does not depend on the HAL's state.
abbrev pub brings : SystemEvent → List ServiceEvent
brings (entry e) = arriving (touches e)
brings (client_call q) = call q ∷ []
brings helper_runs = thread_runs ∷ []
brings clock_ticks = second_passes ∷ []
brings helper_wakes = thread_wakes ∷ []

abbrev pub brings_all : List SystemEvent → List ServiceEvent
brings_all [] = []
brings_all (e ∷ es) = brings e ++ brings_all es

-- Nothing that is about the touch: no touch command, enrolment result or match report of the vendor's
-- service, and no touch of another client.
abbrev is_calm : SystemEvent → Bool
is_calm (entry e) = is_empty (touches e)
is_calm (client_call down) = false
is_calm (client_call up) = false
is_calm _ = true

abbrev pub IsCalmSystem : List SystemEvent → Type 0
IsCalmSystem = All λ e. is_calm e ≡ true

abbrev pub seconds : List SystemEvent → ℕ
seconds [] = 0
seconds (clock_ticks ∷ es) = suc (seconds es)
seconds (_ ∷ es) = seconds es

abbrev pub helper_steps : List SystemEvent → ℕ
helper_steps [] = 0
helper_steps (helper_runs ∷ es) = suc (helper_steps es)
helper_steps (_ ∷ es) = helper_steps es

new_calls-append : (cs old : List HelperCall) → new_calls old (cs ++ old) ≡ cs
new_calls-append cs old =
    let longer : length (cs ++ old) - length old ≡ length cs =
      omega (arith, length-append cs old) in
    ap (λ n. take n (cs ++ old)) longer ∙ take-append cs old

step-brings :
    (env : Env) (e : SystemEvent) (s : BiometricsFingerprint)
    → is_some s.oplus_udfps_helper ≡ true
    → (service_events env e s ≡ brings e) × (is_some (hal_after env e s).oplus_udfps_helper ≡ true)
unfolding service_events hal_after
step-brings env (entry e) s h =
    let (same, calls) = step-touches env e s h in
    (
      ap (λ cs. arriving (new_calls (helper_calls s.trace) cs)) calls
          ∙ ap arriving (new_calls-append (touches e) (helper_calls s.trace)),
      ap is_some same ∙ h,
    )
step-brings env (client_call q) s h = (refl, h)
step-brings env helper_runs s h = (refl, h)
step-brings env clock_ticks s h = (refl, h)
step-brings env helper_wakes s h = (refl, h)

run_service-append :
    (es fs : List ServiceEvent) (v : Service)
    → run_service (es ++ fs) v ≡ run_service fs (run_service es v)
unfolding run_service
run_service-append [] fs v = refl
run_service-append (e ∷ es) fs v = run_service-append es fs (step_service e v)

pub run_system-service :
    (env : Env) (es : List SystemEvent) (y : System)
    → is_some y.hal.oplus_udfps_helper ≡ true
    → (run_system env es y).service ≡ run_service (brings_all es) y.service
unfolding run_system step_system run_service
run_system-service env [] y h = refl
run_system-service env (e ∷ es) y h =
    let (events, there) = step-brings env e y.hal h in
    run_system-service env es (step_system env e y) there
    ∙ ap (λ ks. run_service (brings_all es) (run_service ks y.service)) events
    ∙ sym (run_service-append (brings e) (brings_all es) y.service)

brings_all-append :
    (es fs : List SystemEvent) → brings_all (es ++ fs) ≡ brings_all es ++ brings_all fs
brings_all-append [] fs = refl
brings_all-append (e ∷ es) fs =
    rw (brings_all-append es fs) (sym (append_assoc (brings e) (brings_all es) (brings_all fs)))

-- A calm history as the service sees it.
record IsCalmThere (ks : List ServiceEvent) (es : List SystemEvent) : Type 0 where
  pub calm : AllCalm ks
  pub same_seconds : ticks (seen_all ks) ≡ seconds es
  pub same_steps : thread_steps (seen_all ks) ≡ helper_steps es

calm_entry : (cs : List HelperCall) → is_empty cs ≡ true → arriving cs ≡ []
calm_entry [] h = refl
calm_entry (c ∷ cs) h = cc

brings_all-IsCalmThere : (es : List SystemEvent) → IsCalmSystem es → IsCalmThere (brings_all es) es
unfolding seen
brings_all-IsCalmThere [] k = record { calm = tt; same_seconds = refl; same_steps = refl }
brings_all-IsCalmThere (entry e ∷ es) k =
    let i = brings_all-IsCalmThere es k.1 in
    subst (λ ks. IsCalmThere (ks ++ brings_all es) (entry e ∷ es))
      (sym (calm_entry (touches e) k.0))
      (record { calm = i.calm; same_seconds = i.same_seconds; same_steps = i.same_steps })
brings_all-IsCalmThere (client_call down ∷ es) k = cc (k.0)
brings_all-IsCalmThere (client_call up ∷ es) k = cc (k.0)
brings_all-IsCalmThere (client_call (Request.register address linking reply c) ∷ es) k =
    let i = brings_all-IsCalmThere es k.1 in
    record { calm = (refl, i.calm); same_seconds = i.same_seconds; same_steps = i.same_steps }
brings_all-IsCalmThere (client_call (Request.unregister c) ∷ es) k =
    let i = brings_all-IsCalmThere es k.1 in
    record { calm = (refl, i.calm); same_seconds = i.same_seconds; same_steps = i.same_steps }
brings_all-IsCalmThere (helper_runs ∷ es) k =
    let i = brings_all-IsCalmThere es k.1 in
    record {
      calm = (refl, i.calm);
      same_seconds = i.same_seconds;
      same_steps = ap (λ n. suc n) i.same_steps;
    }
brings_all-IsCalmThere (clock_ticks ∷ es) k =
    let i = brings_all-IsCalmThere es k.1 in
    record {
      calm = (refl, i.calm);
      same_seconds = ap (λ n. suc n) i.same_seconds;
      same_steps = i.same_steps;
    }
brings_all-IsCalmThere (helper_wakes ∷ es) k =
    let i = brings_all-IsCalmThere es k.1 in
    record { calm = (refl, i.calm); same_seconds = i.same_seconds; same_steps = i.same_steps }

-- The HAL and the service as they start, with the helper there.
abbrev pub started_system : BiometricsFingerprint → System
started_system s = record { hal = s; service = started_service }

-- The vendor's service reports a touch.
abbrev pub reported : ℕ → List ℕ → SystemEvent
reported n result = entry (fingerprint_command cmd_id_on_touch_down result n)

-- The HAL with the helper there, and the helper service, after any history of both and of the service's
-- other clients at whose end the helper's thread is not between the check of its wait's predicate and
-- the wait: a touch that the vendor's service then reports to the HAL is over, as the helper reports
-- it, once the thread has made two more steps, then three seconds have passed, and then the thread has
-- made three more steps, although nobody reports its end; if meanwhile no other touch command,
-- enrolment result or match report reaches the HAL and no other client reports a touch. In each of
-- the three spans all other calls, the steps and the seconds may interleave in any way.
pub unreleased_touch_expires :
    (env : Env) (s : BiometricsFingerprint) (hs es fs gs : List SystemEvent) (result : List ℕ)
    (n : ℕ)
    → is_some s.oplus_udfps_helper ≡ true
    → is_committed (run_system env hs (started_system s)).service.watch.thread ≡ false
    → IsCalmSystem es
    → IsCalmSystem fs
    → IsCalmSystem gs
    → 2 ≤ helper_steps es
    → 3 ≤ seconds fs
    → 3 ≤ helper_steps gs
    → UdfpsHelper.get_touch_status
        (run_system env
          (hs ++ (reported n result ∷ (es ++ (fs ++ gs))))
          (started_system s)).service.helper
      ≡ (ok, false)
unreleased_touch_expires env s hs es fs gs result n there e calm calm' calm'' notices late steps =
    let i = brings_all-IsCalmThere es calm in
    let j = brings_all-IsCalmThere fs calm' in
    let k = brings_all-IsCalmThere gs calm'' in
    let start = started_system s in
    let later = es ++ (fs ++ gs) in
    let parts : brings_all later ≡ brings_all es ++ (brings_all fs ++ brings_all gs) =
      brings_all-append es (fs ++ gs) ∙ ap (λ ks. brings_all es ++ ks) (brings_all-append fs gs) in
    let place =
      ap (λ (v : Service). is_committed v.watch.thread)
        (sym (run_system-service env hs start there))
      ∙ e in
    let (up_again, told) =
      touch_expires (brings_all hs) (brings_all es) (brings_all fs) (brings_all gs) 0 ok nobody
        place i.calm j.calm k.calm (omega (arith, notices, i.same_steps))
        (omega (arith, late, j.same_seconds)) (omega (arith, steps, k.same_steps)) in
    ap (λ (v : Service). UdfpsHelper.get_touch_status v.helper)
      (run_system-service env (hs ++ (reported n result ∷ later)) start there
        ∙ ap (λ ks. run_service ks started_service)
            (brings_all-append hs (reported n result ∷ later)
              ∙ ap (λ ks. brings_all hs ++ call down ∷ ks) parts)
        ∙ run_service-append (brings_all hs)
            (call down ∷ (brings_all es ++ (brings_all fs ++ brings_all gs))) started_service)
    ∙ up_again
  where
    nobody : Callback
    nobody = record { proxy = 0; as_binder = 0 }
