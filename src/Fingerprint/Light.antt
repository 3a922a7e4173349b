-- ===== src/Fingerprint/Light.antt =====
-- fingerprint/: when the high-brightness light is on, and when the press node is set.
use android_device_realme_sa.Base.{
  Bool, List, Option, [], any, ap, arith, false, if◌then◌else◌, not, refl, some, subst, sym, true,
  ℕ, ◌==◌, ◌∙◌, ◌∷◌, ◌≡◌,
}
use android_device_realme_sa.Fingerprint.Nodes.{construct}
use android_device_realme_sa.Fingerprint.Types.{
  BiometricsFingerprint, ClientCall, Env, OplusCall, dimlayer_path, fp_press_path,
}
use android_device_realme_sa.Fingerprint.Steps.{Entry, deliver, request, run}
use android_device_realme_sa.Fingerprint.Display.{
  Panel, last_write, panel, panel_step, run-panel, run_panel,
}

-- The entry reports a finger that the vendor's service has recognised.
abbrev is_match : Entry → Bool
is_match (deliver (ClientCall.on_authenticated device finger group token)) = not (finger == 0)
is_match _ = false

abbrev is_finger_down : Entry → Bool
is_finger_down (request (OplusCall.on_finger_down x y minor major)) = true
is_finger_down _ = false

-- The entries that may turn the light on.
abbrev is_lighting : Entry → Bool
is_lighting (request (OplusCall.on_finger_down x y minor major)) = true
is_lighting (request OplusCall.pre_enroll) = true
is_lighting (request (OplusCall.enroll hat gid timeout)) = true
is_lighting _ = false

-- The entries that end a press.
abbrev is_release : Entry → Bool
is_release (request OplusCall.on_finger_up) = true
is_release (deliver (ClientCall.on_authenticated device finger group token)) = true
is_release (deliver (ClientCall.on_error device code vendor)) = true
is_release _ = false

abbrev LitWhileEnrolling : Panel → Type 0
LitWhileEnrolling p = p.enrolling ≡ true → p.hbm ≡ some 1

panel_step-LitWhileEnrolling :
    (hal : Bool) (e : Entry) (p : Panel)
    → is_match e ≡ false
    → LitWhileEnrolling p
    → LitWhileEnrolling (panel_step hal e p)
unfolding panel_step
panel_step-LitWhileEnrolling hal (request OplusCall.cancel) p q h = ground arith
panel_step-LitWhileEnrolling hal (request c) p q h = ground arith
panel_step-LitWhileEnrolling hal (deliver (ClientCall.on_removed d f g r)) p q h = ground arith
panel_step-LitWhileEnrolling hal (deliver c) p q h = ground arith
panel_step-LitWhileEnrolling hal e p q h = ground arith

run_panel-LitWhileEnrolling :
    (hal : Bool) (es : List Entry) (p : Panel)
    → any is_match es ≡ false
    → LitWhileEnrolling p
    → LitWhileEnrolling (run_panel hal es p)
unfolding run_panel
run_panel-LitWhileEnrolling hal [] p q h = h
run_panel-LitWhileEnrolling hal (e ∷ es) p q h =
    run_panel-LitWhileEnrolling hal es (panel_step hal e p) (ground arith)
      (panel_step-LitWhileEnrolling hal e p (ground arith) h)

construct_idle : (env : Env) → (construct env).is_enrolling ≡ false
unfolding construct
construct_idle env = ground arith

-- From start-up on, whenever an enrolment is under way the dimlayer node was last set to 1, over
-- every history in which no finger is recognised.
pub lit_while_enrolling :
    (env : Env) (es : List Entry)
    → any is_match es ≡ false
    → (run env es (construct env)).is_enrolling ≡ true
    → last_write dimlayer_path (run env es (construct env)).trace ≡ some 1
lit_while_enrolling env es q =
    subst LitWhileEnrolling (sym (run-panel env es (construct env)))
      (run_panel-LitWhileEnrolling _ es _ q (λ i. cc (i, construct_idle env)))

-- Released: both nodes were last set to 0 and no enrolment is under way.
abbrev IsDark : Panel → Type 0
IsDark p = (p.hbm ≡ some 0) × (p.press ≡ some 0) × (p.enrolling ≡ false)

panel_step-IsDark :
    (hal : Bool) (e : Entry) (p : Panel)
    → is_lighting e ≡ false
    → IsDark p
    → IsDark (panel_step hal e p)
unfolding panel_step
panel_step-IsDark hal (request OplusCall.cancel) p q h = ground arith
panel_step-IsDark hal (request c) p q h = ground arith
panel_step-IsDark hal (deliver (ClientCall.on_removed d f g r)) p q h = ground arith
panel_step-IsDark hal (deliver c) p q h = ground arith
panel_step-IsDark hal e p q h = ground arith

run_panel-IsDark :
    (hal : Bool) (es : List Entry) (p : Panel)
    → any is_lighting es ≡ false
    → IsDark p
    → IsDark (run_panel hal es p)
unfolding run_panel
run_panel-IsDark hal [] p q h = h
run_panel-IsDark hal (e ∷ es) p q h =
    run_panel-IsDark hal es (panel_step hal e p) (ground arith)
      (panel_step-IsDark hal e p (ground arith) h)

on_finger_up-IsDark :
    (hal : Bool) (p : Panel)
    → p.enrolling ≡ false
    → IsDark (panel_step hal (request OplusCall.on_finger_up) p)
unfolding panel_step
on_finger_up-IsDark hal p h = ground arith

-- Once the finger is lifted outside an enrolment, both nodes were last set to 0 and no enrolment is
-- under way, over every history with no finger down, preEnroll or enroll in it.
pub dark_after_finger_up :
    (env : Env) (es : List Entry) (s : BiometricsFingerprint)
    → s.is_enrolling ≡ false
    → any is_lighting es ≡ false
    → let t = run env (request OplusCall.on_finger_up ∷ es) s in
      (last_write dimlayer_path t.trace ≡ some 0)
      × (last_write fp_press_path t.trace ≡ some 0)
      × (t.is_enrolling ≡ false)
dark_after_finger_up env es s idle q =
    subst IsDark (sym (run-panel env (request OplusCall.on_finger_up ∷ es) s))
      (unfold run_panel in run_panel-IsDark _ es _ q (on_finger_up-IsDark _ (panel s) idle))

panel_step-press :
    (hal : Bool) (e : Entry) (p : Panel)
    → (panel_step hal e p).press
      ≡ (if is_finger_down e then some 1 else if is_release e then some 0 else p.press)
unfolding panel_step
panel_step-press hal (request OplusCall.cancel) p = ground arith
panel_step-press hal (request c) p = ground arith
panel_step-press hal (deliver (ClientCall.on_removed d f g r)) p = ground arith
panel_step-press hal (deliver c) p = ground arith
panel_step-press hal e p = ground arith

-- The value of the press node after a history, from the one before: 1 for the last finger down, 0
-- for the last release, whichever came later.
pub press_after : List Entry → Option ℕ → Option ℕ
press_after [] v = v
press_after (e ∷ es) v =
    press_after es (if is_finger_down e then some 1 else if is_release e then some 0 else v)

run_panel-press :
    (hal : Bool) (es : List Entry) (p : Panel) → (run_panel hal es p).press ≡ press_after es p.press
unfolding run_panel press_after
run_panel-press hal [] p = refl
run_panel-press hal (e ∷ es) p =
    run_panel-press hal es (panel_step hal e p) ∙ ap (press_after es) (panel_step-press hal e p)

-- Over every history the press node holds 1 from a finger down to the next finger up, match report
-- or error, and 0 from there to the next finger down; no other entry touches it.
pub press_tracks_finger :
    (env : Env) (es : List Entry) (s : BiometricsFingerprint)
    → last_write fp_press_path (run env es s).trace
      ≡ press_after es (last_write fp_press_path s.trace)
press_tracks_finger env es s =
    ap (λ (p : Panel). p.press) (run-panel env es s) ∙ run_panel-press _ es (panel s)
