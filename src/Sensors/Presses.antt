-- ===== src/Sensors/Presses.antt =====
-- sensors/: what the UDFPS sensor posts.
use android_device_realme_sa.Base.{
  Option, [], ap, arith, bit_and, false, not, some, true, ◌+◌, ◌==◌, ◌∷◌, ◌≡◌,
}
use android_device_realme_sa.Base.Int.{ℤ}
use android_device_realme_sa.Base.Floats.{to_float}
use android_device_realme_sa.Sensors.Types.{
  HalTypes, IsDocumented, Post, Sensor, SensorInfo, is_negative, polling, screen,
}
use android_device_realme_sa.Sensors.Scan.{read_fp_state}
use android_device_realme_sa.Sensors.Sensor.{construct_udfps, is_wake_up_sensor}
use android_device_realme_sa.Sensors.Thread.{Clocks, PollResult, pollerr, pollpri}
use android_device_realme_sa.Sensors.Histories.{activates, run, runs, step}

module _ (types : HalTypes) where
  pub wake_up-info :
      (s t : Sensor)
      → s.sensor_info ≡ t.sensor_info
      → is_wake_up_sensor types s ≡ is_wake_up_sensor types t
  unfolding is_wake_up_sensor
  wake_up-info s t e = ap (λ (n : SensorInfo). not (bit_and n.flags types.wake_up == 0)) e

pub construct_udfps-wakes :
    (types : HalTypes) (raw : SensorInfo) (h : ℤ) (ends : Option (ℤ × ℤ)) (fd : ℤ)
    → IsDocumented types
    → is_wake_up_sensor types (construct_udfps types raw h ends fd) ≡ true
unfolding construct_udfps is_wake_up_sensor
construct_udfps-wakes types raw h ends fd doc = rw (doc.one_shot_bits, doc.wake_up_bit)

-- The sensor's event for the coordinates that the node gives.
unfoldable pub press_event : HalTypes → PollResult → Sensor → Post
unfolding read_fp_state
press_event types r s =
    let fp = read_fp_state r.fp_node s.screen_x s.screen_y in
    record {
      events =
          record {
            sensor_handle = s.sensor_info.sensor_handle;
            sensor_type = s.sensor_info.sensor_type;
            timestamp = some r.clocks.elapsed_realtime_nano;
            payload = screen (to_float fp.screen_x) (to_float fp.screen_y);
          }
          ∷ [];
      wakeup = is_wake_up_sensor types s;
    }

-- The thread does not look again at the switch after poll(): where it polls, a press that is read
-- after the sensor was switched off is posted all the same.
press_after_deactivation :
    (types : HalTypes) (c : Clocks) (r : PollResult) (s : Sensor)
    → s.thread ≡ polling
    → is_negative r.rc ≡ false
    → r.poll_revents ≡ pollerr + pollpri
    → (read_fp_state r.fp_node s.screen_x s.screen_y).pressed ≡ true
    → (run types (activates false ∷ runs c r ∷ []) s).0 ≡ press_event types r s ∷ []
unfolding run step press_event is_wake_up_sensor
press_after_deactivation types c r s p polled seen press = ground arith
