-- ===== src/Syshelper/Expiry.antt =====
-- syshelper/UdfpsHelper.cpp: the touch state that clients see, over every interleaving of their calls
-- with the thread of the service.
use mathlib.Core.List.{append_assoc}
use android_device_realme_sa.Base.{
  All, Bool, List, [], ap, arith, false, none, refl, some, subst, sym, true, ℕ, ◌++◌, ◌∙◌, ◌∷◌, ◌≡◌,
  ◌≤◌,
}
use android_device_realme_sa.Syshelper.Types.{
  Callback, ScopedAStatus, UdfpsHelper, ok, status_error, status_ok,
}
use android_device_realme_sa.Syshelper.UdfpsHelper
use android_device_realme_sa.Syshelper.Watchdog
use android_device_realme_sa.Syshelper.Watchdog.{Event, Thread, Watch}
use android_device_realme_sa.Syshelper.Timing.{AllQuiet, run-append, thread_steps, ticks}
use android_device_realme_sa.Syshelper.Noticing.{IsTimely, is_committed, run-IsTimely, touch_ends}
use android_device_realme_sa.Syshelper.Registry.{register_callback-registered}
use android_device_realme_sa.Syshelper.Refinement.{
  Registry, Request, down, register, serve, serve-view, serve_registry, unregister, up, view,
}
use android_device_realme_sa.Syshelper.Service.{
  Service, ServiceEvent, call, ends_touch, run_service, second_passes, seen, step_service,
  thread_runs, thread_wakes,
}

abbrev pub started_service : Service
started_service = record { helper = UdfpsHelper.construct; watch = Watchdog.started }

abbrev pub seen_all : List ServiceEvent → List Event
seen_all [] = []
seen_all (e ∷ es) = seen e ++ seen_all es

-- No client reports a touch; clients may register and unregister.
abbrev is_calm : ServiceEvent → Bool
is_calm (call down) = false
is_calm (call up) = false
is_calm _ = true

abbrev pub AllCalm : List ServiceEvent → Type 0
AllCalm = All λ e. is_calm e ≡ true

abbrev Agrees : Service → Type 0
Agrees v = v.helper.current_is_down_state ≡ v.watch.down

unfoldable pub state_after : Request → Bool → Bool
state_after down old = true
state_after up old = false
state_after _ old = old

pub serve-state :
    (q : Request) (s : UdfpsHelper)
    → (serve q s).1.current_is_down_state ≡ state_after q s.current_is_down_state
unfolding state_after serve_registry
serve-state q s =
    sym (ap (λ (o : ScopedAStatus × Registry). o.1.is_down) (serve-view q s)) ∙ by_call q
  where
    by_call :
        (q : Request)
        → (serve_registry q (view s)).1.is_down ≡ state_after q s.current_is_down_state
    by_call down = refl
    by_call up = refl
    by_call (register address linking reply none) = refl
    by_call (register address (status_error e) reply (some c)) = refl
    by_call (register address status_ok reply (some c)) = refl
    by_call (unregister none) = refl
    by_call (unregister (some c)) = refl

step-Agrees : (e : ServiceEvent) (v : Service) → Agrees v → Agrees (step_service e v)
unfolding step_service Watchdog.run Watchdog.step state_after
step-Agrees (call down) v a = refl
step-Agrees (call up) v a = refl
step-Agrees (call (register address linking reply c)) v a =
    serve-state (register address linking reply c) v.helper ∙ a
step-Agrees (call (unregister c)) v a = serve-state (unregister c) v.helper ∙ a
step-Agrees second_passes v a = a
step-Agrees thread_wakes v a = a
step-Agrees thread_runs v a = by_place v.watch.thread v.helper v.watch a
  where
    by_place :
        (k : Thread) (h : UdfpsHelper) (w : Watch)
        → h.current_is_down_state ≡ w.down
        → (ends_touch k h).current_is_down_state ≡ (Watchdog.advance k w).down
    by_place k h w a = unfold ends_touch Watchdog.advance in ground arith

run-Agrees : (es : List ServiceEvent) (v : Service) → Agrees v → Agrees (run_service es v)
unfolding run_service
run-Agrees [] v a = a
run-Agrees (e ∷ es) v a = run-Agrees es (step_service e v) (step-Agrees e v a)

run-watch :
    (es : List ServiceEvent) (v : Service)
    → (run_service es v).watch ≡ Watchdog.run (seen_all es) v.watch
unfolding run_service step_service
run-watch [] v = unfold Watchdog.run in refl
run-watch (e ∷ es) v =
    run-watch es (step_service e v) ∙ sym (run-append (seen e) (seen_all es) v.watch)

seen_all-append : (es fs : List ServiceEvent) → seen_all (es ++ fs) ≡ seen_all es ++ seen_all fs
seen_all-append [] fs = refl
seen_all-append (e ∷ es) fs =
    rw (seen_all-append es fs) (sym (append_assoc (seen e) (seen_all es) (seen_all fs)))

seen_all-AllQuiet : (es : List ServiceEvent) → AllCalm es → AllQuiet (seen_all es)
unfolding seen
seen_all-AllQuiet [] q = tt
seen_all-AllQuiet (call down ∷ es) q = cc (q.0)
seen_all-AllQuiet (call up ∷ es) q = cc (q.0)
seen_all-AllQuiet (call (register address linking reply c) ∷ es) q = seen_all-AllQuiet es q.1
seen_all-AllQuiet (call (unregister c) ∷ es) q = seen_all-AllQuiet es q.1
seen_all-AllQuiet (thread_runs ∷ es) q = (refl, seen_all-AllQuiet es q.1)
seen_all-AllQuiet (second_passes ∷ es) q = (refl, seen_all-AllQuiet es q.1)
seen_all-AllQuiet (thread_wakes ∷ es) q = (refl, seen_all-AllQuiet es q.1)

-- The whole service, after any history at whose end the thread is not between the check of its wait's
-- predicate and the wait: a touch that is then reported is over once the thread has made two more
-- steps, then three seconds have passed, and then the thread has made three more steps, if no client
-- reports another touch or its end meanwhile. In each of the three spans the steps, the seconds,
-- wake-ups by themselves and clients that register and unregister may interleave in any way. The
-- service then reports that no finger is down, and tells so to a client that registers.
pub touch_expires :
    (hs es fs gs : List ServiceEvent) (address : ℕ) (reply : ScopedAStatus) (c : Callback)
    → is_committed (run_service hs started_service).watch.thread ≡ false
    → AllCalm es
    → AllCalm fs
    → AllCalm gs
    → 2 ≤ thread_steps (seen_all es)
    → 3 ≤ ticks (seen_all fs)
    → 3 ≤ thread_steps (seen_all gs)
    → let v = run_service hs started_service in
      let h = (run_service (call down ∷ (es ++ (fs ++ gs))) v).helper in
      (UdfpsHelper.get_touch_status h ≡ (ok, false))
      × ((UdfpsHelper.register_callback address status_ok reply (some c) h).1.calls
          ≡ record { callback = c; is_down = false } ∷ h.calls)
unfolding UdfpsHelper.get_touch_status seen
touch_expires hs es fs gs address reply c e calm calm' calm'' notices late steps =
    let v = run_service hs started_service in
    let whole = call down ∷ (es ++ (fs ++ gs)) in
    let u = run_service whole v in
    let agrees : Agrees v = run-Agrees hs started_service (unfold UdfpsHelper.construct in refl) in
    let seen_parts : seen_all (es ++ (fs ++ gs)) ≡ seen_all es ++ (seen_all fs ++ seen_all gs) =
      seen_all-append es (fs ++ gs) ∙ ap (λ ks. seen_all es ++ ks) (seen_all-append fs gs) in
    let timely : IsTimely v.watch =
      subst IsTimely (sym (run-watch hs started_service))
        (run-IsTimely (seen_all hs) Watchdog.started (λ n h. cc h)) in
    let up_again : u.watch.down ≡ false =
      ap (λ (w : Watch). w.down) (run-watch whole v)
      ∙ ap (λ ks. (Watchdog.run (Watchdog.touch_down ∷ ks) v.watch).down) seen_parts
      ∙ touch_ends v.watch (seen_all es) (seen_all fs) (seen_all gs) timely e
          (seen_all-AllQuiet es calm) (seen_all-AllQuiet fs calm') (seen_all-AllQuiet gs calm'')
          notices late steps in
    let off : u.helper.current_is_down_state ≡ false = run-Agrees whole v agrees ∙ up_again in
    let (done, list, calls, state) = (register_callback-registered address reply u.helper).2 c in
    (
      ap (λ d. (ok, d)) off,
      calls ∙ ap (λ d. record { callback = c; is_down = d } ∷ u.helper.calls) off,
    )
