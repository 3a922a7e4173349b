-- ===== src/Sensors/Shutdown.antt =====
-- sensors/Sensor.cpp: the destructors of UdfpsSensor and Sensor, and the thread that they join.
--
-- ~UdfpsSensor interrupts poll(), and ~Sensor sets the stop flag after it; the thread may move between
-- the two.
use android_device_realme_sa.Base.{List, Option, [], arith, false, true, ◌<◌, ◌∷◌, ◌≡◌, ◌≢◌, ◌⊎◌}
use android_device_realme_sa.Base.Int.{ℤ}
use android_device_realme_sa.Sensors.Types.{
  HalTypes, Sensor, SensorInfo, exited, is_negative, polling, udfps,
}
use android_device_realme_sa.Sensors.Sensor.{
  construct_udfps, destroy_sensor, destroy_udfps, is_udfps,
}
use android_device_realme_sa.Sensors.Thread.{Clocks, PollResult, is_runnable, pollin}
use android_device_realme_sa.Sensors.Histories.{SensorEvent, run, runs, step}
use android_device_realme_sa.Sensors.Wakeups.{
  IsAlert, construct_udfps-IsAlert, is_active, run-IsAlert,
}

-- Both destructors, with the history of the thread between them.
unfoldable pub destroy : HalTypes → List SensorEvent → Sensor → Sensor
unfolding destroy_udfps destroy_sensor
destroy types es s = destroy_sensor (run types es (destroy_udfps s)).1

stops :
    (types : HalTypes) (c : Clocks) (r q p : PollResult) (s : Sensor)
    → IsAlert s
    → let t = destroy types [] s in
      ((t.thread ≢ polling) ⊎ (0 < t.pipe))
      × ((run types (runs c r ∷ runs c q ∷ runs c p ∷ []) t).1.thread ≡ exited)
unfolding destroy run step is_runnable
stops types c r q p s i = ground arith

-- If the thread does not move between the destructors, the join comes to an end: over every history
-- of the UDFPS sensor from its construction on, poll() finds a byte in the pipe where the thread is
-- in it, and three steps of the thread, whatever poll() gives, lead to its end.
pub destroy_ends :
    (types : HalTypes) (raw : SensorInfo) (h : ℤ) (ends : Option (ℤ × ℤ)) (fd : ℤ)
    (es : List SensorEvent) (c : Clocks) (r q p : PollResult)
    → let t = destroy types [] (run types es (construct_udfps types raw h ends fd)).1 in
      ((t.thread ≢ polling) ⊎ (0 < t.pipe))
      × ((run types (runs c r ∷ runs c q ∷ runs c p ∷ []) t).1.thread ≡ exited)
destroy_ends types raw h ends fd es c r q p =
    stops types c r q p _ (run-IsAlert types es _ (construct_udfps-IsAlert types raw h ends fd))

-- If the thread polls for a sensor that is on, with an empty pipe, and takes two steps between the
-- destructors, it reads the byte of the interrupt and polls again: after both destructors it is in
-- poll() with an empty pipe, although it should stop.
pub lost_interrupt :
    (types : HalTypes) (c : Clocks) (r q : PollResult) (s : Sensor)
    → s.kind ≡ udfps
    → s.thread ≡ polling
    → is_active s ≡ true
    → s.stop_thread ≡ false
    → s.pipe ≡ 0
    → is_negative s.wait_pipe_write ≡ false
    → is_negative r.rc ≡ false
    → r.wait_revents ≡ pollin
    → r.poll_revents ≡ 0
    → let t = destroy types (runs c r ∷ runs c q ∷ []) s in
      (t.thread ≡ polling) × (t.pipe ≡ 0) × (t.stop_thread ≡ true)
unfolding destroy run step
lost_interrupt types c r q s is_udfps at_poll active stop empty opened answered readable quiet =
    ground arith
