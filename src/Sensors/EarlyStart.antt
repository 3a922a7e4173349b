-- ===== src/Sensors/EarlyStart.antt =====
-- sensors/Sensor.cpp: the constructor of Sensor starts the thread, which calls the virtual run().
--
-- If the thread makes this call before the constructors of the derived classes have run, the call is
-- Sensor::run, and the thread stays in that loop when the object has become a UdfpsSensor. readEvents
-- is called anew each time, and is then that of UdfpsSensor.
use android_device_realme_sa.Base.{
  List, [], ap, arith, false, if◌then◌else◌, length, refl, suc, true, ◌++◌, ◌∷◌, ◌≡◌,
}
use android_device_realme_sa.Base.Int.{pos, ℤ, ◌*ℤ◌, ◌+ℤ◌, ◌≤ℤ◌}
use android_device_realme_sa.Sensors.Types.{
  HalTypes, Post, Sensor, Thread, dozing, exited, polling, top, udfps, waiting,
}
use android_device_realme_sa.Sensors.Sensor.{is_wake_up_sensor}
use android_device_realme_sa.Sensors.Thread.{Clocks, is_runnable, loop_base, read_events}
use android_device_realme_sa.Sensors.Wakeups.{is_active}

abbrev pub now : Clocks → ℤ
now c = c.tv_sec *ℤ pos 1000000000 +ℤ c.tv_nsec

module _ (types : HalTypes) where
  -- One step of a thread that is in Sensor::run, whatever the class of the object.
  unfoldable advance_base : Thread → Clocks → Sensor → List Post × Sensor
  unfolding loop_base is_runnable
  advance_base top clocks s = loop_base types clocks s
  advance_base dozing clocks s = ([], record s { thread = top })
  advance_base polling clocks s = ([], s)
  advance_base exited clocks s = ([], s)
  advance_base (waiting true) clocks s =
      ([], record s { thread = if is_runnable s then top else waiting false })
  advance_base (waiting false) clocks s = ([], s)

  -- Turns of the loop of two steps each, with the readings of the clocks.
  unfoldable pub run_base : List Clocks → Sensor → List Post × Sensor
  unfolding advance_base
  run_base [] s = ([], s)
  run_base (c ∷ cs) s =
      let (posts, t) = advance_base s.thread c s in
      let (none_posted, u) = advance_base t.thread c t in
      let (more, v) = run_base cs u in (posts ++ none_posted ++ more, v)

  -- The clock does not go back.
  abbrev pub IsForward : ℤ → List Clocks → Type 0
  IsForward last [] = Unit {0}
  IsForward last (c ∷ cs) = (last ≤ℤ now c) × IsForward (now c) cs

  -- The event that a turn posts: the class's own, whether there was a press or not.
  abbrev sampled : Clocks → Sensor → Post
  sampled c s = record { events = read_events types udfps c s; wakeup = is_wake_up_sensor types s }

  turn-base :
      (c : Clocks) (s : Sensor)
      → s.kind ≡ udfps
      → s.thread ≡ top
      → is_active s ≡ true
      → s.stop_thread ≡ false
      → s.sampling_period_ns ≡ pos 0
      → s.last_sample_time_ns ≤ℤ now c
      → advance_base s.thread c s
        ≡ (sampled c s ∷ [], record s { last_sample_time_ns = now c; thread = dozing })
  unfolding advance_base
  turn-base c s k p a h e f = ground arith

  -- A thread that has started too early samples a one-shot sensor that was switched on once: each turn
  -- posts an event, with no press seen, and the sensor stays on.
  pub early_start_floods :
      (cs : List Clocks) (s : Sensor)
      → s.kind ≡ udfps
      → s.thread ≡ top
      → is_active s ≡ true
      → s.stop_thread ≡ false
      → s.sampling_period_ns ≡ pos 0
      → IsForward s.last_sample_time_ns cs
      → (length (run_base cs s).0 ≡ length cs) × ((run_base cs s).1.is_enabled ≡ true)
  unfolding run_base
  early_start_floods [] s k p a h e f = (refl, ground arith)
  early_start_floods (c ∷ cs) s k p a h e f =
      let (count, on) =
        early_start_floods cs (record s { last_sample_time_ns = now c; thread = top }) k refl a h e
          f.1 in
      rw (turn-base c s k p a h e f.0) (ap suc count, on)
