-- ===== src/Sensors/SubHalExamples.antt =====
-- sensors/: the sub-HAL at work on concrete inputs.
use android_device_realme_sa.Base.{All, [], arith, get_or_else, length, refl, some, true, ◌∷◌, ◌≡◌}
use android_device_realme_sa.Base.Int.{pos}
use android_device_realme_sa.Sensors.Types.{Sensor, data_injection, normal, plain}
use android_device_realme_sa.Sensors.Scan.{read_fp_state}
use android_device_realme_sa.Sensors.Sensor
use android_device_realme_sa.Sensors.Presses.{press_event}
use android_device_realme_sa.Sensors.SubHal
use android_device_realme_sa.Sensors.SubHal.{SensorsSubHal}
use android_device_realme_sa.Sensors.Dispatch.{calls_reach_sensor, deliveries}
use android_device_realme_sa.Sensors.Reachable
use android_device_realme_sa.Sensors.Modes.{one_sensor}
use android_device_realme_sa.Sensors.EndToEnd.{press_delivered, run_turns}
use android_device_realme_sa.Sensors.Deliveries.{IsSeen, Polled, posted-IsSeen, run_turns-Reach}
use android_device_realme_sa.Sensors.Periods.{HasDelays}
use android_device_realme_sa.Sensors.Samples.{
  clocks, fds, hidl, hidl-IsDocumented, polling_sensor, pressed, raw_info,
}

abbrev sub_hal : SensorsSubHal
sub_hal = record {
  sensors = (pos 1, polling_sensor) ∷ [];
  callback = some 30;
  current_operation_mode = normal;
  next_handle = pos 2;
  posted = [];
}

calls_reach_sensor_example :
    SubHal.get_operation_mode (SubHal.set_operation_mode data_injection sub_hal).1 ≡ data_injection
calls_reach_sensor_example =
    (calls_reach_sensor (pos 1) (pos 1) true (pos 5) (pos 0) data_injection sub_hal).3

one_sensor_example :
    let s = (SubHal.activate (pos 1) true (SubHal.construct hidl raw_info fds (pos 7))).1 in
    (t : Sensor) × (s.sensors ≡ (pos 1, t) ∷ [])
    × (SubHal.get_sensors_list_2_1 s
        ≡ (Sensor.construct_udfps hidl raw_info (pos 1) fds (pos 7)).sensor_info ∷ [])
    × (t.mode ≡ SubHal.get_operation_mode s)
one_sensor_example =
    one_sensor hidl raw_info fds (pos 7)
      (Reachable.next Reachable.here (Reachable.activates (pos 1) true))

abbrev accelerometer : Sensor
accelerometer = record polling_sensor {
  kind = plain;
  sensor_info = record raw_info { min_delay = pos 10000; max_delay = pos 1000000 };
}

accelerometer-HasDelays : HasDelays 10000 1000000 accelerometer
accelerometer-HasDelays = record {
  is_plain = refl;
  min_delay = refl;
  max_delay = refl;
  ordered = omega arith;
  fits = omega arith;
}

-- The sub-HAL once the framework has initialised it.
abbrev initialized : SensorsSubHal
initialized = (SubHal.initialize (some 30) (SubHal.construct hidl raw_info fds (pos 7))).1

abbrev idle_sensor : Sensor
idle_sensor =
    (Sensor.set_operation_mode normal (Sensor.construct_udfps hidl raw_info (pos 1) fds (pos 7))).2

press_delivered_example :
    (u : SensorsSubHal) × (run_turns hidl
        (pos 1)
        clocks
        pressed
        5
        (SubHal.activate (pos 1) true initialized).1
      ≡ some u)
    × (u.posted ≡ deliveries 30 (press_event hidl pressed idle_sensor ∷ []) [])
unfolding SubHal.initialize SubHal.construct SubHal.find SubHal.get_operation_mode read_fp_state
press_delivered_example =
    press_delivered hidl raw_info fds (pos 7) clocks pressed 2 {t = idle_sensor}
      (Reachable.next Reachable.here (Reachable.initializes (some 30))) refl refl refl refl
      (record { polled = refl; asked = refl; press = refl })

-- The state after that run.
abbrev touched : SensorsSubHal
touched =
    get_or_else
      (run_turns hidl (pos 1) clocks pressed 5 (SubHal.activate (pos 1) true initialized).1)
      initialized

touched-ran :
    run_turns hidl (pos 1) clocks pressed 5 (SubHal.activate (pos 1) true initialized).1
    ≡ some touched
unfolding SubHal.initialize SubHal.construct SubHal.find SubHal.get_operation_mode read_fp_state
    run_turns SubHal.activate
touched-ran = refl

touched-delivery : length touched.posted ≡ 1
unfolding SubHal.initialize SubHal.construct SubHal.find SubHal.get_operation_mode read_fp_state
    run_turns SubHal.activate
touched-delivery = refl

-- The run, and the state that it leads to.
abbrev touched_reach : Reachable.Reach hidl (SubHal.construct hidl raw_info fds (pos 7)) touched
touched_reach =
    run_turns-Reach hidl (pos 1) clocks pressed 5
      (Reachable.next (Reachable.next Reachable.here (Reachable.initializes (some 30)))
        (Reachable.activates (pos 1) true))
      touched-ran

posted-IsSeen_example :
    All
      (λ d.
        IsSeen
          (Polled touched_reach)
          (record raw_info { sensor_handle = pos 1; sensor_type = pos 65537 })
          d.events
          d.wakeup)
      touched.posted
posted-IsSeen_example = posted-IsSeen hidl raw_info fds (pos 7) touched_reach hidl-IsDocumented
