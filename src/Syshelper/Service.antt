-- ===== src/Syshelper/Service.antt =====
-- syshelper/UdfpsHelper.cpp: the whole service, the calls of its clients and its own thread in any
-- order. The touch state of UdfpsHelper is the one that the thread tests and ends.
use android_device_realme_sa.Base.{List, [], ◌∷◌}
use android_device_realme_sa.Syshelper.Types.{UdfpsHelper}
use android_device_realme_sa.Syshelper.UdfpsHelper
use android_device_realme_sa.Syshelper.Watchdog
use android_device_realme_sa.Syshelper.Watchdog.{Event, Thread, Watch}
use android_device_realme_sa.Syshelper.Refinement.{Request, down, serve, up}

pub record Service : Type 0 where
  pub helper : UdfpsHelper
  pub watch : Watch

pub data ServiceEvent : Type 0 where
  call : Request → ServiceEvent
  thread_runs second_passes thread_wakes : ServiceEvent

-- The event that the thread sees.
unfoldable pub seen : ServiceEvent → List Event
seen (call down) = Watchdog.touch_down ∷ []
seen (call up) = Watchdog.touch_up ∷ []
seen (call _) = []
seen thread_runs = Watchdog.run_thread ∷ []
seen second_passes = Watchdog.tick ∷ []
seen thread_wakes = Watchdog.wakes_up ∷ []

-- run() calls touchUp where it forces the end of a touch.
unfoldable pub ends_touch : Thread → UdfpsHelper → UdfpsHelper
unfolding UdfpsHelper.touch_up
ends_touch Watchdog.forcing h = (UdfpsHelper.touch_up h).1
ends_touch _ h = h

unfoldable pub change : ServiceEvent → Thread → UdfpsHelper → UdfpsHelper
unfolding serve ends_touch
change (call q) k h = (serve q h).1
change thread_runs k h = ends_touch k h
change second_passes k h = h
change thread_wakes k h = h

unfoldable pub step_service : ServiceEvent → Service → Service
unfolding change seen Watchdog.run
step_service e v = record {
  helper = change e v.watch.thread v.helper;
  watch = Watchdog.run (seen e) v.watch;
}

unfoldable pub run_service : List ServiceEvent → Service → Service
unfolding step_service
run_service [] v = v
run_service (e ∷ es) v = run_service es (step_service e v)
