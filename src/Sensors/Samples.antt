-- ===== src/Sensors/Samples.antt =====
-- sensors/: data for the examples: the constants of the HIDL package, a node, results of poll() and a
-- sensor.
use android_device_realme_sa.Base.{List, Option, [], false, refl, some, true, ◌∷◌}
use android_device_realme_sa.Base.Int.{pos, ℤ}
use android_device_realme_sa.Sensors.Types.{
  HalTypes, IsDocumented, Sensor, SensorInfo, normal, polling, udfps,
}
use android_device_realme_sa.Sensors.Scan.{FpNode}
use android_device_realme_sa.Sensors.ScanLaws.{fp_text}
use android_device_realme_sa.Sensors.Thread.{Clocks, PollResult}
use android_device_realme_sa.Sensors.Histories.{SensorEvent}

abbrev pub hidl : HalTypes
hidl = record {
  wake_up = 1;
  one_shot_mode = 4;
  data_injection_bit = 16;
  meta_data = pos 0;
  additional_info = pos 33;
  device_private_base = pos 65536;
  sub_hal_2_1_version = 21;
}

pub hidl-IsDocumented : IsDocumented hidl
hidl-IsDocumented = record { wake_up_bit = refl; one_shot_bits = refl; injection_bit = refl }

abbrev pub raw_info : SensorInfo
raw_info = record {
  sensor_handle = pos 0;
  name = "";
  vendor = "";
  version = 0;
  sensor_type = pos 0;
  type_as_string = "";
  max_range = 0;
  resolution = 0;
  power = 0;
  min_delay = pos 0;
  max_delay = pos 0;
  fifo_reserved_event_count = 0;
  fifo_max_event_count = 0;
  required_permission = "";
  flags = 0;
}

abbrev pub fds : Option (ℤ × ℤ)
fds = some (pos 5, pos 6)

abbrev pub clocks : Clocks
clocks = record { tv_sec = pos 1; tv_nsec = pos 0; elapsed_realtime_nano = 77 }

-- The node reads "5,12,1" and a newline.
abbrev pub node : FpNode
node = record {
  seek = pos 0;
  content = some (fp_text (5 ∷ []) (1 ∷ 2 ∷ []) (1 ∷ []) (10 ∷ []));
  garbage = 57 ∷ 57 ∷ [];
}

abbrev pub pressed : PollResult
pressed = record {
  rc = pos 1;
  wait_revents = 0;
  poll_revents = 10;
  fp_node = node;
  clocks = clocks;
}

abbrev pub interrupted : PollResult
interrupted = record pressed { wait_revents = 1; poll_revents = 0 }

abbrev pub polling_sensor : Sensor
polling_sensor = record {
  kind = udfps;
  sensor_info = record raw_info { sensor_handle = pos 1; flags = 5 };
  is_enabled = true;
  sampling_period_ns = pos 0;
  last_sample_time_ns = pos 0;
  mode = normal;
  stop_thread = false;
  thread = polling;
  wait_pipe_read = pos 5;
  wait_pipe_write = pos 6;
  pipe = 0;
  poll_fd = pos 7;
  screen_x = pos 0;
  screen_y = pos 0;
}

abbrev pub switched_off : List SensorEvent
switched_off =
    SensorEvent.activates true ∷ SensorEvent.runs clocks pressed ∷ SensorEvent.activates false ∷ []
