-- ===== src/Sensors/Thread.antt =====
-- sensors/Sensor.cpp: readEvents and run, of Sensor and of UdfpsSensor.
--
-- The thread holds mRunMutex but for the time that it spends in wait(), wait_for() and poll(), and
-- the methods that change what the loop tests hold it too. So the loop is cut at these calls: a
-- method may come between two steps, and the evaluation of a wait's predicate and the wait are one
-- step.
use android_device_realme_sa.Base.{
  Bool, List, [], false, if◌then◌else◌, not, some, true, ℕ, ◌&&◌, ◌+◌, ◌-◌, ◌==◌, ◌||◌, ◌∷◌,
}
use android_device_realme_sa.Base.Int.{ltb_ℤ, pos, ℤ, ◌*ℤ◌, ◌+ℤ◌}
use android_device_realme_sa.Base.Floats.{to_float}
use android_device_realme_sa.Sensors.Types.{
  Event, HalTypes, Kind, Post, Sensor, Thread, data_injection, dozing, exited, is_negative, mode_eq,
  normal, one_shot, plain, polling, screen, top, udfps, vec3_high, waiting,
}
use android_device_realme_sa.Sensors.Scan.{FpNode, read_fp_state}
use android_device_realme_sa.Sensors.Sensor.{is_udfps, is_wake_up_sensor}

-- POLLIN, POLLPRI and POLLERR of <poll.h>.
abbrev pub pollin : ℕ
pollin = 1

abbrev pub pollpri : ℕ
pollpri = 2

abbrev pub pollerr : ℕ
pollerr = 8

-- The clocks, as the thread reads them: CLOCK_REALTIME and elapsedRealtimeNano().
pub record Clocks : Type 0 where
  pub tv_sec : ℤ
  pub tv_nsec : ℤ
  pub elapsed_realtime_nano : ℕ

-- What poll() and the calls after it give. `wait_revents` and `poll_revents` are mPolls[0].revents
-- and mPolls[1].revents.
pub record PollResult : Type 0 where
  pub rc : ℤ
  pub wait_revents : ℕ
  pub poll_revents : ℕ
  pub fp_node : FpNode
  pub clocks : Clocks

-- The predicate of the wait.
unfoldable pub is_runnable : Sensor → Bool
is_runnable s = (s.is_enabled && mode_eq s.mode normal) || s.stop_thread

module _ (types : HalTypes) where
  unfoldable read_events_plain : Clocks → Sensor → List Event
  read_events_plain clocks s =
      record {
        sensor_handle = s.sensor_info.sensor_handle;
        sensor_type = s.sensor_info.sensor_type;
        timestamp = some clocks.elapsed_realtime_nano;
        payload = vec3_high (pos 0) (pos 0) (pos 0);
      }
      ∷ []

  -- The coordinates are ints, and the members of Event::u.data floats.
  unfoldable read_events_udfps : Clocks → Sensor → List Event
  read_events_udfps clocks s =
      record {
        sensor_handle = s.sensor_info.sensor_handle;
        sensor_type = s.sensor_info.sensor_type;
        timestamp = some clocks.elapsed_realtime_nano;
        payload = screen (to_float s.screen_x) (to_float s.screen_y);
      }
      ∷ []

  -- readEvents is virtual.
  unfoldable pub read_events : Kind → Clocks → Sensor → List Event
  unfolding read_events_plain read_events_udfps
  read_events plain clocks s = read_events_plain clocks s
  read_events one_shot clocks s = read_events_plain clocks s
  read_events udfps clocks s = read_events_udfps clocks s

  abbrev post : List Event → Sensor → Post
  post events s = record { events = events; wakeup = is_wake_up_sensor types s }

  -- The sampling branch of Sensor::run.
  unfoldable pub sample : Clocks → Sensor → List Post × Sensor
  unfolding read_events
  sample clocks s =
      let now = clocks.tv_sec *ℤ pos 1000000000 +ℤ clocks.tv_nsec in
      let next_sample_time = s.last_sample_time_ns +ℤ s.sampling_period_ns in
      if ltb_ℤ now next_sample_time then ([], record s { thread = dozing }) else (
        post (read_events s.kind clocks s) s ∷ [],
        record s { last_sample_time_ns = now; thread = dozing },
      )

  -- One turn of the loop of Sensor::run and of UdfpsSensor::run, from its head to the next wait. The
  -- predicate is evaluated before the wait.
  unfoldable pub loop_base : Clocks → Sensor → List Post × Sensor
  unfolding sample
  loop_base clocks s =
      if s.stop_thread
      then ([], record s { thread = exited })
      else if not s.is_enabled || mode_eq s.mode data_injection
      then ([], record s { thread = waiting true })
      else sample clocks s

  unfoldable loop_udfps : Sensor → List Post × Sensor
  loop_udfps s =
      if s.stop_thread
      then ([], record s { thread = exited })
      else if not s.is_enabled || mode_eq s.mode data_injection
      then ([], record s { thread = waiting true })
      else ([], record s { thread = polling })

  -- run is virtual.
  unfoldable pub loop : Clocks → Sensor → List Post × Sensor
  unfolding loop_base loop_udfps
  loop clocks s = if is_udfps s.kind then loop_udfps s else loop_base clocks s

  -- The part of UdfpsSensor::run after poll().
  unfoldable after_poll : PollResult → Sensor → List Post × Sensor
  unfolding read_fp_state read_events_udfps
  after_poll result s =
      let s' = record s { thread = top } in
      if is_negative result.rc
      then ([], record s' { stop_thread = true })
      else let fp = read_fp_state result.fp_node s.screen_x s.screen_y in
        let asked = result.poll_revents == pollerr + pollpri in
        let seen =
          if asked then record s' { screen_x = fp.screen_x; screen_y = fp.screen_y } else s' in
        if asked && fp.pressed
        then (let done = record seen { is_enabled = false } in
            (post (read_events_udfps result.clocks done) done ∷ [], done))
        else if result.wait_revents == pollin
        then ([], record seen { pipe = seen.pipe - 1 })
        else ([], seen)

  -- One step of the thread at a place where it can move.
  unfoldable pub advance : Thread → Clocks → PollResult → Sensor → List Post × Sensor
  unfolding loop after_poll is_runnable
  advance top clocks result s = loop clocks s
  advance dozing clocks result s = ([], record s { thread = top })
  advance polling clocks result s = after_poll result s
  advance exited clocks result s = ([], s)
  advance (waiting true) clocks result s =
      ([], record s { thread = if is_runnable s then top else waiting false })
  advance (waiting false) clocks result s = ([], s)

  unfoldable pub run_thread : Clocks → PollResult → Sensor → List Post × Sensor
  unfolding advance
  run_thread clocks result s = advance s.thread clocks result s
