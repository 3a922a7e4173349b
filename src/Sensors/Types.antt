-- ===== src/Sensors/Types.antt =====
-- sensors/Sensor.h: the data of a sensor.
--
-- The numbers of the HIDL types (android.hardware.sensors) are generated outside this repository:
-- `HalTypes` holds those that the code names.
use android_device_realme_sa.Base.{Bool, List, Option, String, false, true, ℕ, ◌≡◌}
use android_device_realme_sa.Base.Int.{negsuc, pos, ℤ}

-- Bits of SensorFlagBits, members of SensorType, and SUB_HAL_2_1_VERSION.
pub record HalTypes : Type 0 where
  pub wake_up : ℕ
  pub one_shot_mode : ℕ
  pub data_injection_bit : ℕ
  pub meta_data : ℤ
  pub additional_info : ℤ
  pub device_private_base : ℤ
  pub sub_hal_2_1_version : ℕ

-- The flag bits as the HIDL package documents them.
pub record IsDocumented (types : HalTypes) : Type 0 where
  pub wake_up_bit : types.wake_up ≡ 1
  pub one_shot_bits : types.one_shot_mode ≡ 4
  pub injection_bit : types.data_injection_bit ≡ 16

pub data OperationMode : Type 0 where
  normal data_injection : OperationMode

abbrev pub mode_eq : OperationMode → OperationMode → Bool
mode_eq normal normal = true
mode_eq data_injection data_injection = true
mode_eq _ _ = false

pub data Result : Type 0 where
  ok bad_value invalid_operation : Result

-- The part of the event's union that the code sets; `other` is what a client injects.
pub data Payload : Type 0 where
  flush_complete : Payload
  vec3_high : ℤ → ℤ → ℤ → Payload
  screen : ℤ → ℤ → Payload
  other : ℕ → Payload

-- `timestamp` is `none` where the code leaves it unset.
pub record Event : Type 0 where
  pub sensor_handle : ℤ
  pub sensor_type : ℤ
  pub timestamp : Option ℕ
  pub payload : Payload

-- One call of ISensorsEventCallback::postEvents.
pub record Post : Type 0 where
  pub events : List Event
  pub wakeup : Bool

-- `max_range`, `resolution` and `power` are floats with whole values.
pub record SensorInfo : Type 0 where
  pub sensor_handle : ℤ
  pub name : String
  pub vendor : String
  pub version : ℕ
  pub sensor_type : ℤ
  pub type_as_string : String
  pub max_range : ℕ
  pub resolution : ℕ
  pub power : ℕ
  pub min_delay : ℤ
  pub max_delay : ℤ
  pub fifo_reserved_event_count : ℕ
  pub fifo_max_event_count : ℕ
  pub required_permission : String
  pub flags : ℕ

-- The class of the object.
pub data Kind : Type 0 where
  plain one_shot udfps : Kind

-- Where the thread of a sensor stands. `waiting w`: in wait() with a predicate, which is evaluated
-- next if `w` is true, and else only after a notification. `dozing`: in wait_for(). `polling`: in
-- poll().
pub data Thread : Type 0 where
  top dozing polling exited : Thread
  waiting : Bool → Thread

-- `wait_pipe_read` and `wait_pipe_write` are mWaitPipeFd, `pipe` the bytes in the pipe.
pub record Sensor : Type 0 where
  pub kind : Kind
  pub sensor_info : SensorInfo
  pub is_enabled : Bool
  pub sampling_period_ns : ℤ
  pub last_sample_time_ns : ℤ
  pub mode : OperationMode
  pub stop_thread : Bool
  pub thread : Thread
  pub wait_pipe_read : ℤ
  pub wait_pipe_write : ℤ
  pub pipe : ℕ
  pub poll_fd : ℤ
  pub screen_x : ℤ
  pub screen_y : ℤ

-- An operation returns its result, the events that it posts, oldest first, and the sensor.
abbrev pub Method : Type 0 → Type 0
Method A = Sensor → A × List Post × Sensor

abbrev pub is_negative : ℤ → Bool
is_negative (pos n) = false
is_negative (negsuc n) = true
