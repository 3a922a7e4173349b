-- ===== src/Sensors/Examples.antt =====
-- sensors/: one sensor at work on concrete inputs.
use android_device_realme_sa.Base.{
  List, [], arith, false, length, refl, some, true, ◌*◌, ◌<◌, ◌∷◌, ◌≡◌, ◌≢◌, ◌≤◌, ◌⊎◌,
}
use android_device_realme_sa.Base.Floats.{to_float}
use android_device_realme_sa.Base.Int.{pos, ◌+ℤ◌, ◌≤ℤ◌}
use android_device_realme_sa.Sensors.Types.{Sensor, exited, plain, polling, screen, top}
use android_device_realme_sa.Sensors.Sensor
use android_device_realme_sa.Sensors.Thread.{is_runnable}
use android_device_realme_sa.Sensors.Histories
use android_device_realme_sa.Sensors.Histories.{SensorEvent}
use android_device_realme_sa.Sensors.Wakeups.{blocked_idle, poll_interrupted}
use android_device_realme_sa.Sensors.Sampling.{IsSampling, samples, sampling_rate}
use android_device_realme_sa.Sensors.Shutdown.{destroy, destroy_ends, lost_interrupt}
use android_device_realme_sa.Sensors.OneShot.{activations, posts-le-activations}
use android_device_realme_sa.Sensors.EarlyStart.{early_start_floods, run_base}
use android_device_realme_sa.Sensors.Samples.{
  clocks, fds, hidl, hidl-IsDocumented, interrupted, polling_sensor, pressed, raw_info,
  switched_off,
}

-- Switched on, polled, pressed, and back to the wait.
abbrev touch_history : List SensorEvent
touch_history =
    SensorEvent.runs clocks pressed
    ∷ SensorEvent.runs clocks pressed
    ∷ SensorEvent.activates true
    ∷ SensorEvent.runs clocks pressed
    ∷ SensorEvent.runs clocks pressed
    ∷ SensorEvent.runs clocks pressed
    ∷ SensorEvent.runs clocks pressed
    ∷ SensorEvent.runs clocks pressed
    ∷ []

touch_history_posts :
    (Histories.run hidl touch_history (Sensor.construct_udfps hidl raw_info (pos 1) fds (pos 7))).0
    ≡ record {
      events =
          record {
            sensor_handle = pos 1;
            sensor_type = pos 65537;
            timestamp = some 77;
            payload = screen (pos 5) (pos 12);
          }
          ∷ [];
      wakeup = true;
    }
      ∷ []
unfolding Histories.run Histories.step Sensor.construct_udfps Sensor.is_wake_up_sensor to_float
touch_history_posts = refl

blocked_idle_example :
    is_runnable
      (Histories.run hidl touch_history
        (Sensor.construct_udfps hidl raw_info (pos 1) fds (pos 7))).1
    ≡ false
blocked_idle_example =
    blocked_idle hidl raw_info (pos 1) fds (pos 7) touch_history
      (unfold Histories.run Histories.step Sensor.construct_udfps Sensor.is_wake_up_sensor in refl)

poll_interrupted_example :
    0
    < (Histories.run hidl switched_off
        (Sensor.construct_udfps hidl raw_info (pos 1) fds (pos 7))).1.pipe
poll_interrupted_example =
    poll_interrupted hidl raw_info (pos 1) fds (pos 7) switched_off
      (unfold Histories.run Histories.step Sensor.construct_udfps in refl)
      (unfold Histories.run Histories.step Sensor.construct_udfps in refl)

posts-le-activations_example :
    let s = Sensor.construct_udfps hidl raw_info (pos 1) fds (pos 7) in
    length (Histories.run hidl touch_history s).0 ≤ activations hidl touch_history s
posts-le-activations_example =
    posts-le-activations hidl raw_info (pos 1) fds (pos 7) touch_history hidl-IsDocumented

destroy_ends_example :
    let t =
      destroy hidl []
        (Histories.run hidl switched_off
          (Sensor.construct_udfps hidl raw_info (pos 1) fds (pos 7))).1 in
    ((t.thread ≢ polling) ⊎ (0 < t.pipe))
    × ((Histories.run hidl
          (SensorEvent.runs clocks interrupted
            ∷ SensorEvent.runs clocks interrupted
            ∷ SensorEvent.runs clocks interrupted
            ∷ [])
          t).1.thread
        ≡ exited)
destroy_ends_example =
    destroy_ends hidl raw_info (pos 1) fds (pos 7) switched_off clocks interrupted interrupted
      interrupted

lost_interrupt_example :
    let t =
      destroy hidl
        (SensorEvent.runs clocks interrupted ∷ SensorEvent.runs clocks interrupted ∷ [])
        polling_sensor in
    (t.thread ≡ polling) × (t.pipe ≡ 0) × (t.stop_thread ≡ true)
lost_interrupt_example =
    lost_interrupt hidl clocks interrupted interrupted polling_sensor refl refl refl refl refl refl
      refl refl refl

-- A sensor of the base class that is due for a sample.
abbrev plain_sensor : Sensor
plain_sensor = record polling_sensor { kind = plain; thread = top; sampling_period_ns = pos 50 }

plain_sensor-IsSampling : IsSampling hidl 50 plain_sensor
plain_sensor-IsSampling = record { is_plain = refl; never_polls = ground arith; period = refl }

abbrev two_turns : List SensorEvent
two_turns =
    SensorEvent.runs clocks pressed
    ∷ SensorEvent.runs clocks pressed
    ∷ SensorEvent.runs clocks pressed
    ∷ []

sampling_rate_example :
    pos (samples hidl two_turns plain_sensor * 50) +ℤ pos 0
    ≤ℤ (Histories.run hidl two_turns plain_sensor).1.last_sample_time_ns
sampling_rate_example = sampling_rate hidl two_turns plain_sensor 50 plain_sensor-IsSampling refl

-- The thread has entered Sensor::run, and the sensor was switched on.
abbrev early_sensor : Sensor
early_sensor = record polling_sensor { thread = top }

early_start_floods_example :
    (length (run_base hidl (clocks ∷ clocks ∷ clocks ∷ []) early_sensor).0 ≡ 3)
    × ((run_base hidl (clocks ∷ clocks ∷ clocks ∷ []) early_sensor).1.is_enabled ≡ true)
early_start_floods_example =
    early_start_floods hidl (clocks ∷ clocks ∷ clocks ∷ []) early_sensor refl refl refl refl refl
      (omega arith)
