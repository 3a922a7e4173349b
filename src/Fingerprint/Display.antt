-- ===== src/Fingerprint/Display.antt =====
-- fingerprint/: the HAL seen from the display, as the values last written to the two nodes.
use android_device_realme_sa.Base.{
  Bool, List, Option, [], arith, false, if◌then◌else◌, none, refl, some, true, ℕ, ◌==◌, ◌∙◌, ◌∷◌,
  ◌≡◌,
}
use android_device_realme_sa.Fingerprint.Types.{
  BiometricsFingerprint, ClientCall, Env, Node, OplusCall, Trace, client, dimlayer_path,
  fp_press_path, helper, oplus, write,
}
use android_device_realme_sa.Fingerprint.Steps.{
  Entry, deliver, engineering_info, fingerprint_command, register, relay, request, run, serve, step,
}

abbrev same_node : Node → Node → Bool
same_node fp_press_path fp_press_path = true
same_node dimlayer_path dimlayer_path = true
same_node _ _ = false

-- The value that a history wrote last to a node.
abbrev pub last_write : Node → Trace → Option ℕ
last_write n [] = none
last_write n (write m v ∷ t) = if same_node m n then some v else last_write n t
last_write n (oplus c ∷ t) = last_write n t
last_write n (client k c ∷ t) = last_write n t
last_write n (helper c ∷ t) = last_write n t

-- `hbm` and `press` are the values that the display driver was given last.
pub record Panel : Type 0 where
  pub hbm : Option ℕ
  pub press : Option ℕ
  pub enrolling : Bool

abbrev pub panel : BiometricsFingerprint → Panel
panel s = record {
  hbm = last_write dimlayer_path s.trace;
  press = last_write fp_press_path s.trace;
  enrolling = s.is_enrolling;
}

abbrev lit : Panel → Panel
lit p = record p { hbm = some 1 }

abbrev dark : Panel → Panel
dark p = record p { hbm = some 0 }

-- While a finger is being enrolled the light is left as it is.
abbrev unless_enrolling : (Panel → Panel) → Panel → Panel
unless_enrolling f p = if p.enrolling then p else f p

-- What a request does to the panel when the vendor's service is there.
unfoldable serve_panel : OplusCall → Panel → Panel
serve_panel OplusCall.pre_enroll p = lit (record p { enrolling = true })
serve_panel (OplusCall.enroll hat gid timeout) p = lit p
serve_panel OplusCall.post_enroll p = dark (record p { enrolling = false })
serve_panel OplusCall.cancel p = unless_enrolling dark p
serve_panel (OplusCall.authenticate operation gid) p = record p { enrolling = false }
serve_panel _ p = p

-- Finger events reach the display whether the service is there or not.
unfoldable pub panel_step : Bool → Entry → Panel → Panel
unfolding serve_panel
panel_step hal (request (OplusCall.on_finger_down x y minor major)) p =
    record (unless_enrolling lit p) { press = some 1 }
panel_step hal (request OplusCall.on_finger_up) p = record (unless_enrolling dark p) {
  press = some 0;
}
panel_step hal (request c) p = if hal then serve_panel c p else p
panel_step hal (deliver (ClientCall.on_authenticated device finger group token)) p =
    record (if finger == 0 then p else dark p) { press = some 0 }
panel_step hal (deliver (ClientCall.on_error device code vendor)) p =
    record (unless_enrolling dark p) { press = some 0 }
panel_step hal _ p = p

unfoldable pub run_panel : Bool → List Entry → Panel → Panel
run_panel hal [] p = p
run_panel hal (e ∷ es) p = run_panel hal es (panel_step hal e p)

serve-panel :
    (env : Env) (c : OplusCall) (s : BiometricsFingerprint)
    → panel (serve env c s) ≡ panel_step s.oplus_biometrics_fingerprint (request c) (panel s)
unfolding serve panel_step
serve-panel env OplusCall.set_hal_callback s = ground arith
serve-panel env c s = ground arith

relay-panel :
    (env : Env) (c : ClientCall) (s : BiometricsFingerprint)
    → panel (relay env c s) ≡ panel_step s.oplus_biometrics_fingerprint (deliver c) (panel s)
unfolding relay panel_step
relay-panel env (ClientCall.on_removed device finger group remaining) s = ground arith
relay-panel env c s = ground arith

step-panel :
    (env : Env) (e : Entry) (s : BiometricsFingerprint)
    → panel (step env e s) ≡ panel_step s.oplus_biometrics_fingerprint e (panel s)
unfolding step panel_step
step-panel env (request c) s = serve-panel env c s
step-panel env (deliver c) s = relay-panel env c s
step-panel env (register k) s = ground arith
step-panel env (engineering_info n keys values) s = refl
step-panel env (fingerprint_command cmd result n) s = ground arith

pub step-oplus :
    (env : Env) (e : Entry) (s : BiometricsFingerprint)
    → (step env e s).oplus_biometrics_fingerprint ≡ s.oplus_biometrics_fingerprint
unfolding step
step-oplus env (request OplusCall.set_hal_callback) s = refl
step-oplus env (request c) s = ground arith
step-oplus env (deliver (ClientCall.on_removed device finger group remaining)) s = ground arith
step-oplus env (deliver c) s = ground arith
step-oplus env (register k) s = ground arith
step-oplus env (engineering_info n keys values) s = refl
step-oplus env (fingerprint_command cmd result n) s = ground arith

-- Over every history the HAL drives the display as the panel does: the values last written to the two
-- nodes, and whether an enrolment is under way, are those that the panel's own steps give, which see
-- neither the answers of the service and the properties nor the other calls.
pub run-panel :
    (env : Env) (es : List Entry) (s : BiometricsFingerprint)
    → panel (run env es s) ≡ run_panel s.oplus_biometrics_fingerprint es (panel s)
unfolding run run_panel
run-panel env [] s = refl
run-panel env (e ∷ es) s =
    run-panel env es (step env e s) ∙ rw (step-oplus env e s, step-panel env e s)
