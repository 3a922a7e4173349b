-- ===== src/Syshelper/ServiceExamples.antt =====
-- syshelper/: the whole service and its abstract view on concrete calls.
use android_device_realme_sa.Base.{List, [], arith, false, refl, some, ◌++◌, ◌∷◌, ◌≡◌}
use android_device_realme_sa.Syshelper.Types.{
  Callback, ex_illegal_argument, ok, status_dead_object, status_ok,
}
use android_device_realme_sa.Syshelper.UdfpsHelper
use android_device_realme_sa.Syshelper.UdfpsHelper.{construct}
use android_device_realme_sa.Syshelper.Watchdog
use android_device_realme_sa.Syshelper.Refinement.{
  Request, register, serve, serve_all, serve_all-view, serve_registry_all, unregister, view,
}
use android_device_realme_sa.Syshelper.Service.{
  ServiceEvent, call, run_service, second_passes, seen, thread_runs,
}
use android_device_realme_sa.Syshelper.Expiry.{started_service, touch_expires}

abbrev settings : Callback
settings = record { proxy = 1; as_binder = 40 }

abbrev keyguard : Callback
keyguard = record { proxy = 2; as_binder = 41 }

abbrev come_and_go : List Request
come_and_go =
    register 100 status_ok ok (some settings)
    ∷ Request.down
    ∷ register 200 status_ok status_dead_object (some keyguard)
    ∷ unregister (some keyguard)
    ∷ unregister (some settings)
    ∷ []

come_and_go_answers :
    (serve_all come_and_go construct).0 ≡ ok ∷ ok ∷ ok ∷ ex_illegal_argument ∷ ok ∷ []
unfolding serve_all serve construct
come_and_go_answers = refl

serve_all-view_example :
    serve_registry_all come_and_go (view construct)
    ≡ ((serve_all come_and_go construct).0, view (serve_all come_and_go construct).1)
serve_all-view_example = serve_all-view come_and_go construct

-- The thread has begun to wait.
abbrev begun : List ServiceEvent
begun = thread_runs ∷ thread_runs ∷ thread_runs ∷ []

abbrev three_seconds : List ServiceEvent
three_seconds =
    second_passes
    ∷ call (register 100 status_ok ok (some settings))
    ∷ second_passes
    ∷ thread_runs
    ∷ second_passes
    ∷ []

touch_expires_example :
    let h =
      (run_service
        (call Request.down ∷ (begun ++ (three_seconds ++ begun)))
        (run_service begun started_service)).helper in
    (UdfpsHelper.get_touch_status h ≡ (ok, false))
    × ((UdfpsHelper.register_callback 200 status_ok ok (some keyguard) h).1.calls
        ≡ record { callback = keyguard; is_down = false } ∷ h.calls)
unfolding run_service Watchdog.run Watchdog.step seen
touch_expires_example =
    touch_expires begun begun three_seconds begun 200 ok keyguard refl (refl, (refl, (refl, tt)))
      (refl, (refl, (refl, (refl, (refl, tt))))) (refl, (refl, (refl, tt))) (omega arith)
      (omega arith) (omega arith)
