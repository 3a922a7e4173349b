-- ===== src/Fingerprint/Delivery.antt =====
-- fingerprint/: which callbacks reach the framework's client, and which touches reach the helper.
use android_device_realme_sa.Base.{
  List, Option, [], ap, arith, if◌then◌else◌, is_some, none, refl, some, true, ℕ, ◌++◌, ◌∙◌, ◌∷◌,
  ◌≡◌,
}
use android_device_realme_sa.Base.Int.{eq_ℤ}
use android_device_realme_sa.Fingerprint.Types.{
  BiometricsFingerprint, ClientCall, Env, HelperCall, OplusCall, Trace, client, helper, oplus,
  write,
}
use android_device_realme_sa.Fingerprint.Callbacks.{cmd_id_on_touch_down, cmd_id_on_touch_up}
use android_device_realme_sa.Fingerprint.Steps.{
  Entry, deliver, engineering_info, fingerprint_command, register, request, run, step,
}

-- The calls of a client in a history, newest first.
abbrev pub client_calls : Trace → List (ℕ × ClientCall)
client_calls [] = []
client_calls (client k c ∷ t) = (k, c) ∷ client_calls t
client_calls (oplus c ∷ t) = client_calls t
client_calls (write n v ∷ t) = client_calls t
client_calls (helper c ∷ t) = client_calls t

abbrev pub helper_calls : Trace → List HelperCall
helper_calls [] = []
helper_calls (helper c ∷ t) = c ∷ helper_calls t
helper_calls (oplus c ∷ t) = helper_calls t
helper_calls (write n v ∷ t) = helper_calls t
helper_calls (client k c ∷ t) = helper_calls t

-- The client registered after an entry.
abbrev registered : Entry → Option ℕ → Option ℕ
registered (register k) old = k
registered _ old = old

abbrev address : Option ℕ → ClientCall → List (ℕ × ClientCall)
address none c = []
address (some k) c = (k, c) ∷ []

abbrev delivers : Option ℕ → Entry → List (ℕ × ClientCall)
delivers k (deliver c) = address k c
delivers k _ = []

-- Each callback goes to the client that was registered last; it is dropped if there is none.
pub delivered : Option ℕ → List Entry → List (ℕ × ClientCall) → List (ℕ × ClientCall)
delivered k [] cs = cs
delivered k (e ∷ es) cs = delivered (registered e k) es (delivers k e ++ cs)

step-client :
    (env : Env) (e : Entry) (s : BiometricsFingerprint)
    → ((step env e s).client_callback ≡ registered e s.client_callback)
      × (client_calls (step env e s).trace ≡ delivers s.client_callback e ++ client_calls s.trace)
unfolding step
step-client env (request OplusCall.set_hal_callback) s = ground arith
step-client env (request c) s = ground arith
step-client env (deliver (ClientCall.on_removed d f g r)) s = ground arith
step-client env (deliver c) s = ground arith
step-client env (register k) s = ground arith
step-client env (engineering_info n keys values) s = (refl, refl)
step-client env (fingerprint_command cmd result n) s = ground arith

-- Over every history the framework receives exactly the callbacks of the vendor's service, in order
-- and with the same arguments, each at the client registered at that time.
pub run-delivered :
    (env : Env) (es : List Entry) (s : BiometricsFingerprint)
    → client_calls (run env es s).trace ≡ delivered s.client_callback es (client_calls s.trace)
unfolding run delivered
run-delivered env [] s = refl
run-delivered env (e ∷ es) s =
    let (k, calls) = step-client env e s in run-delivered env es (step env e s) ∙ rw (k, calls)

-- What an entry tells the touch helper.
abbrev pub touches : Entry → List HelperCall
touches (deliver (ClientCall.on_enroll_result device finger group remaining)) =
    HelperCall.touch_up ∷ []
touches (deliver (ClientCall.on_authenticated device finger group token)) = HelperCall.touch_up ∷ []
touches (fingerprint_command cmd result n) =
    if eq_ℤ cmd cmd_id_on_touch_down
    then HelperCall.touch_down ∷ []
    else if eq_ℤ cmd cmd_id_on_touch_up
    then HelperCall.touch_up ∷ []
    else []
touches _ = []

unfoldable pub touched : List Entry → List HelperCall → List HelperCall
touched [] cs = cs
touched (e ∷ es) cs = touched es (touches e ++ cs)

pub step-touches :
    (env : Env) (e : Entry) (s : BiometricsFingerprint)
    → is_some s.oplus_udfps_helper ≡ true
    → ((step env e s).oplus_udfps_helper ≡ s.oplus_udfps_helper)
      × (helper_calls (step env e s).trace ≡ touches e ++ helper_calls s.trace)
unfolding step
step-touches env (request OplusCall.set_hal_callback) s h = ground arith
step-touches env (request c) s h = ground arith
step-touches env (deliver (ClientCall.on_removed d f g r)) s h = ground arith
step-touches env (deliver c) s h = ground arith
step-touches env (register k) s h = ground arith
step-touches env (engineering_info n keys values) s h = (refl, refl)
step-touches env (fingerprint_command cmd result n) s h = ground arith

-- With the helper there, over every history it is told of exactly the touch-down and touch-up
-- commands, and of a touch-up at each enrolment result and each match report.
pub run-touched :
    (env : Env) (es : List Entry) (s : BiometricsFingerprint)
    → is_some s.oplus_udfps_helper ≡ true
    → helper_calls (run env es s).trace ≡ touched es (helper_calls s.trace)
unfolding run touched
run-touched env [] s h = refl
run-touched env (e ∷ es) s h =
    let (same, calls) = step-touches env e s h in
    run-touched env es (step env e s) (ap is_some same ∙ h) ∙ ap (touched es) calls
