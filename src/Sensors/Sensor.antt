-- ===== src/Sensors/Sensor.antt =====
-- sensors/Sensor.cpp: the constructors and the methods of Sensor, OneShotSensor and UdfpsSensor.
-- A virtual method branches on the class of the object.
use android_device_realme_sa.Base.{
  Bool, Option, [], bit_and, bit_or, bool_eq, false, get_or_else, if◌then◌else◌, none, not, true, ℕ,
  ◌+◌, ◌==◌, ◌||◌, ◌∷◌,
}
use android_device_realme_sa.Base.Int.{eq_ℤ, ltb_ℤ, negsuc, pos, ℤ, ◌*ℤ◌, ◌+ℤ◌}
use android_device_realme_sa.Base.Words.{to_i32}
use android_device_realme_sa.Sensors.Types.{
  Event, HalTypes, Kind, Method, OperationMode, Result, Sensor, SensorInfo, Thread, bad_value,
  data_injection, dozing, exited, flush_complete, invalid_operation, is_negative, mode_eq, normal,
  ok, one_shot, plain, polling, top, udfps, waiting,
}

-- Sensor::Sensor; `raw` holds what the constructor leaves as it is.
unfoldable construct_sensor : SensorInfo → ℤ → Sensor
construct_sensor raw sensor_handle = record {
  kind = plain;
  sensor_info = record raw {
    sensor_handle = sensor_handle;
    vendor = "The LineageOS Project";
    version = 1;
    max_delay = pos 1000000;
    fifo_reserved_event_count = 0;
    fifo_max_event_count = 0;
    required_permission = "";
    flags = 0;
  };
  is_enabled = false;
  sampling_period_ns = pos 0;
  last_sample_time_ns = pos 0;
  mode = normal;
  stop_thread = false;
  thread = top;
  wait_pipe_read = negsuc 0;
  wait_pipe_write = negsuc 0;
  pipe = 0;
  poll_fd = negsuc 0;
  screen_x = pos 0;
  screen_y = pos 0;
}

unfoldable pub get_sensor_info : Sensor → SensorInfo
get_sensor_info s = s.sensor_info

unfoldable has_flag : ℕ → Sensor → Bool
has_flag bit s = not (bit_and s.sensor_info.flags bit == 0)

-- mWaitCV.notify_all()
unfoldable pub notify_all : Sensor → Sensor
notify_all s = record s { thread = wake s.thread }
  where
    wake : Thread → Thread
    wake (waiting w) = waiting true
    wake dozing = top
    wake top = top
    wake polling = polling
    wake exited = exited

-- UdfpsSensor::interruptPoll
unfoldable interrupt_poll : Sensor → Sensor
interrupt_poll s = if is_negative s.wait_pipe_write then s else record s { pipe = s.pipe + 1 }

abbrev pub is_udfps : Kind → Bool
is_udfps udfps = true
is_udfps plain = false
is_udfps one_shot = false

abbrev pub clamp_ℤ : ℤ → ℤ → ℤ → ℤ
clamp_ℤ v lo hi = if ltb_ℤ v lo then lo else if ltb_ℤ hi v then hi else v

-- Sensor::batch, with the products of the delays as int32_t.
unfoldable pub batch_plain : ℤ → Sensor → Sensor
unfolding notify_all
batch_plain sampling_period_ns s =
    let period =
      clamp_ℤ sampling_period_ns (to_i32 (s.sensor_info.min_delay *ℤ pos 1000))
        (to_i32 (s.sensor_info.max_delay *ℤ pos 1000)) in
    if eq_ℤ s.sampling_period_ns period
    then s
    else notify_all (record s { sampling_period_ns = period })

unfoldable pub batch_kind : Kind → ℤ → Sensor → Sensor
unfolding batch_plain
batch_kind plain sampling_period_ns s = batch_plain sampling_period_ns s
batch_kind one_shot sampling_period_ns s = s
batch_kind udfps sampling_period_ns s = s

unfoldable pub batch : ℤ → Method (Unit {0})
unfolding batch_kind
batch sampling_period_ns s = (tt, [], batch_kind s.kind sampling_period_ns s)

unfoldable activate_plain : Bool → Sensor → Sensor
unfolding notify_all
activate_plain enable s =
    if bool_eq s.is_enabled enable then s else notify_all (record s { is_enabled = enable })

unfoldable activate_udfps : Bool → Sensor → Sensor
unfolding notify_all interrupt_poll
activate_udfps enable s =
    if bool_eq s.is_enabled enable
    then s
    else notify_all (interrupt_poll (record s { is_enabled = enable }))

-- activate and setOperationMode are virtual; OneShotSensor takes those of Sensor over.
unfoldable pub activate : Bool → Method (Unit {0})
unfolding activate_plain activate_udfps
activate enable s =
    (tt, [], if is_udfps s.kind then activate_udfps enable s else activate_plain enable s)

unfoldable set_operation_mode_plain : OperationMode → Sensor → Sensor
unfolding notify_all
set_operation_mode_plain mode s =
    if mode_eq s.mode mode then s else notify_all (record s { mode = mode })

-- UdfpsSensor writes to the pipe also when the mode stays the same.
unfoldable set_operation_mode_udfps : OperationMode → Sensor → Sensor
unfolding set_operation_mode_plain interrupt_poll
set_operation_mode_udfps mode s = interrupt_poll (set_operation_mode_plain mode s)

unfoldable pub set_operation_mode : OperationMode → Method (Unit {0})
unfolding set_operation_mode_plain set_operation_mode_udfps
set_operation_mode mode s = (
  tt,
  [],
  if is_udfps s.kind then set_operation_mode_udfps mode s else set_operation_mode_plain mode s,
)

-- ~UdfpsSensor and ~Sensor, up to the join of the thread.
unfoldable pub destroy_udfps : Sensor → Sensor
unfolding interrupt_poll
destroy_udfps s = if is_udfps s.kind then interrupt_poll s else s

unfoldable pub destroy_sensor : Sensor → Sensor
unfolding notify_all
destroy_sensor s = notify_all (record s { stop_thread = true; is_enabled = false })

module _ (types : HalTypes) where
  unfoldable construct_one_shot : SensorInfo → ℤ → Sensor
  unfolding construct_sensor
  construct_one_shot raw sensor_handle =
      let s = construct_sensor raw sensor_handle in
      record s {
        kind = one_shot;
        sensor_info = record s.sensor_info {
          min_delay = negsuc 0;
          max_delay = pos 0;
          flags = bit_or s.sensor_info.flags types.one_shot_mode;
        };
      }

  -- `ends` are the two ends of the pipe, or `none` if pipe() fails; `poll_fd` is what open() returns.
  unfoldable pub construct_udfps : SensorInfo → ℤ → Option (ℤ × ℤ) → ℤ → Sensor
  unfolding construct_one_shot
  construct_udfps raw sensor_handle ends poll_fd =
      let s = construct_one_shot raw sensor_handle in
      let fds = get_or_else ends (negsuc 0, negsuc 0) in
      record s {
        kind = udfps;
        sensor_info = record s.sensor_info {
          name = "UDFPS Sensor";
          sensor_type = types.device_private_base +ℤ pos 1;
          type_as_string = "org.lineageos.sensor.udfps";
          max_range = 2048;
          resolution = 1;
          power = 0;
          flags = bit_or s.sensor_info.flags types.wake_up;
        };
        stop_thread = is_negative fds.0 || is_negative fds.1 || is_negative poll_fd;
        wait_pipe_read = fds.0;
        wait_pipe_write = fds.1;
        poll_fd = poll_fd;
      }

  unfoldable pub is_wake_up_sensor : Sensor → Bool
  unfolding has_flag
  is_wake_up_sensor s = has_flag types.wake_up s

  unfoldable pub supports_data_injection : Sensor → Bool
  unfolding has_flag
  supports_data_injection s = has_flag types.data_injection_bit s

  unfoldable flush_plain : Method Result
  unfolding is_wake_up_sensor
  flush_plain s =
      let ev : Event = record {
        sensor_handle = s.sensor_info.sensor_handle;
        sensor_type = types.meta_data;
        timestamp = none;
        payload = flush_complete;
      } in
      if s.is_enabled
      then (ok, record { events = ev ∷ []; wakeup = is_wake_up_sensor s } ∷ [], s)
      else (bad_value, [], s)

  unfoldable flush_kind : Kind → Method Result
  unfolding flush_plain
  flush_kind plain s = flush_plain s
  flush_kind one_shot s = (bad_value, [], s)
  flush_kind udfps s = (bad_value, [], s)

  unfoldable pub flush : Method Result
  unfolding flush_kind
  flush s = flush_kind s.kind s

  unfoldable pub inject_event : Event → Method Result
  unfolding is_wake_up_sensor supports_data_injection
  inject_event event s =
      if eq_ℤ event.sensor_type types.additional_info
      then (ok, [], s)
      else if supports_data_injection s
      then if mode_eq s.mode data_injection
        then (ok, record { events = event ∷ []; wakeup = is_wake_up_sensor s } ∷ [], s)
        else (bad_value, [], s)
      else (invalid_operation, [], s)
