-- ===== src/Syshelper/Examples.antt =====
-- syshelper/: the service and its thread at work on concrete calls.
use android_device_realme_sa.Base.{List, [], arith, elem, false, refl, some, true, ◌++◌, ◌∷◌, ◌≡◌}
use android_device_realme_sa.Syshelper.Types.{
  Callback, Linked, UdfpsHelper, binder_of, ok, status_dead_object, status_ok,
}
use android_device_realme_sa.Syshelper.LinkedCallback.{find_linked}
use android_device_realme_sa.Syshelper.UdfpsHelper.{
  construct, on_callback_died, register_callback, touch_down,
}
use android_device_realme_sa.Syshelper.Links.{IsLinked}
use android_device_realme_sa.Syshelper.Registry.{registered, without}
use android_device_realme_sa.Syshelper.Safety.{
  Reach, Reach-IsLinked, cookie_safe, down, next, registers, start,
}
use android_device_realme_sa.Syshelper.Watchdog
use android_device_realme_sa.Syshelper.Watchdog.{Event, Watch}
use android_device_realme_sa.Syshelper.Touches.{lost_wakeup, noticed, touch_lasts}

abbrev settings : Callback
settings = record { proxy = 1; as_binder = 40 }

abbrev keyguard : Callback
keyguard = record { proxy = 2; as_binder = 41 }

abbrev one_client : UdfpsHelper
one_client = record {
  current_is_down_state = true;
  callbacks = record { address = 100; callback = settings } ∷ [];
  links = record { binder = 40; cookie = 100 } ∷ [];
  calls = record { callback = settings; is_down = true } ∷ [];
}

registers_two :
    (register_callback 200 status_ok ok (some keyguard) one_client).1.links
    ≡ record { binder = 40; cookie = 100 } ∷ record { binder = 41; cookie = 200 } ∷ []
unfolding register_callback
registers_two = refl

dead_on_arrival :
    (register_callback 200 status_ok status_dead_object (some settings) one_client).1.callbacks ≡ []
unfolding register_callback
dead_on_arrival = refl

one_client-Reach : Reach one_client
unfolding register_callback touch_down construct
one_client-Reach = next (next start down) (registers 100 status_ok ok (some settings) refl)

Reach-IsLinked_example : IsLinked one_client
Reach-IsLinked_example = Reach-IsLinked one_client-Reach

cookie_safe_example :
    (l : Linked) × (t : UdfpsHelper) × (find_linked 100 one_client.callbacks ≡ some l)
    × (on_callback_died 100 one_client ≡ some t)
    × (registered t ≡ without (binder_of l) (40 ∷ []))
    × (elem (binder_of l) (registered t) ≡ false)
cookie_safe_example = cookie_safe 100 one_client-Reach refl

abbrev waiting : Watch
waiting = record { down = false; thread = Watchdog.blocked; now = 10 }

abbrev three_seconds : List Event
three_seconds = Event.tick ∷ Event.run_thread ∷ Event.tick ∷ Event.tick ∷ []

touch_lasts_example :
    (Watchdog.run (noticed ++ Event.tick ∷ Event.run_thread ∷ Event.tick ∷ []) waiting).down ≡ true
touch_lasts_example =
    touch_lasts waiting (Event.tick ∷ Event.run_thread ∷ Event.tick ∷ []) refl
      (refl, (refl, (refl, tt))) (omega arith)

-- The thread has just found the touch state up.
abbrev racing : Watch
racing = record { down = false; thread = Watchdog.committed; now = 0 }

racing_reached : Watchdog.run (Event.run_thread ∷ Event.run_thread ∷ []) Watchdog.started ≡ racing
unfolding Watchdog.run Watchdog.step
racing_reached = refl

lost_wakeup_example : (Watchdog.run (Event.touch_down ∷ three_seconds) racing).down ≡ true
lost_wakeup_example = lost_wakeup racing three_seconds refl (refl, (refl, (refl, (refl, tt))))

abbrev dozing : Watch
dozing = record { down = true; thread = Watchdog.sleeping 13; now = 12 }
