-- ===== src/Sensors/SubHal.antt =====
-- sensors/SensorsSubHal.h and SensorsSubHal.cpp: the sub-HAL over its sensors.
use android_device_realme_sa.Base.{
  Bool, List, Option, String, [], if◌then◌else◌, is_empty, is_some, ltb, map, none, some, ℕ, ◌++◌,
  ◌∷◌,
}
use android_device_realme_sa.Base.Int.{eq_ℤ, ltb_ℤ, negsuc, pos, ℤ, ◌+ℤ◌}
use android_device_realme_sa.Base.Words.{to_i32}
use android_device_realme_sa.Sensors.Sensor
use android_device_realme_sa.Sensors.Thread.{Clocks, PollResult, run_thread}
use android_device_realme_sa.Sensors.Types.{
  Event, HalTypes, OperationMode, Post, Result, Sensor, SensorInfo, bad_value, invalid_operation,
  normal, ok,
}

-- std::map<int32_t, std::shared_ptr<Sensor>>: the entries in the order of their keys.
abbrev pub SensorMap : Type 0
SensorMap = List (ℤ × Sensor)

unfoldable pub find : ℤ → SensorMap → Option Sensor
find h [] = none
find h ((k, s) ∷ m) = if eq_ℤ k h then some s else find h m

-- `mSensors[h] = sensor`
unfoldable insert : ℤ → Sensor → SensorMap → SensorMap
insert h s [] = (h, s) ∷ []
insert h s ((k, v) ∷ m) =
    if eq_ℤ k h
    then (h, s) ∷ m
    else if ltb_ℤ h k
    then (h, s) ∷ (k, v) ∷ m
    else (k, v) ∷ insert h s m

-- A method call through the pointer that the map holds changes that sensor in place.
unfoldable pub update : ℤ → (Sensor → Sensor) → SensorMap → SensorMap
update h f [] = []
update h f ((k, s) ∷ m) = if eq_ℤ k h then (k, f s) ∷ m else (k, s) ∷ update h f m

-- A call of the HAL proxy: createScopedWakelock(wakeup), and postEvents with that wake lock.
pub record Delivery : Type 0 where
  pub proxy : ℕ
  pub events : List Event
  pub wakeup : Bool

-- `posted` holds the calls of the proxy, newest first; a proxy is a number.
pub record SensorsSubHal : Type 0 where
  pub sensors : SensorMap
  pub callback : Option ℕ
  pub current_operation_mode : OperationMode
  pub next_handle : ℤ
  pub posted : List Delivery

-- SensorsSubHal::postEvents; `none` is the use of a null proxy.
unfoldable post_events : Post → SensorsSubHal → Option SensorsSubHal
post_events p s = elim s.callback [
  | none ↦ none
  | some proxy ↦ some (record s {
    posted = record { proxy = proxy; events = p.events; wakeup = p.wakeup } ∷ s.posted;
  })
]

unfoldable pub post_all : List Post → SensorsSubHal → Option SensorsSubHal
unfolding post_events
post_all [] s = some s
post_all (p ∷ ps) s = elim (post_events p s) [ none ↦ none | some t ↦ post_all ps t ]

abbrev pub with_result : Result → Option SensorsSubHal → Option (Result × SensorsSubHal)
with_result r none = none
with_result r (some s) = some (r, s)

unfoldable pub set_operation_mode : OperationMode → SensorsSubHal → Result × SensorsSubHal
unfolding Sensor.set_operation_mode
set_operation_mode mode s = (
  ok,
  record s {
    sensors = map (λ e. (e.0, (Sensor.set_operation_mode mode e.1).2)) s.sensors;
    current_operation_mode = mode;
  },
)

unfoldable pub activate : ℤ → Bool → SensorsSubHal → Result × SensorsSubHal
unfolding find update Sensor.activate
activate sensor_handle enabled s =
    if is_some (find sensor_handle s.sensors)
    then (
      ok,
      record s { sensors = update sensor_handle (λ t. (Sensor.activate enabled t).2) s.sensors },
    )
    else (bad_value, s)

-- The period is an int64_t here and an int32_t in the sensor.
unfoldable pub batch : ℤ → ℤ → ℤ → SensorsSubHal → Result × SensorsSubHal
unfolding find update Sensor.batch
batch sensor_handle sampling_period_ns max_report_latency_ns s =
    if is_some (find sensor_handle s.sensors)
    then (
      ok,
      record s {
        sensors =
            update sensor_handle (λ t. (Sensor.batch (to_i32 sampling_period_ns) t).2) s.sensors;
      },
    )
    else (bad_value, s)

unfoldable register_direct_channel : SensorsSubHal → (Result × ℤ) × SensorsSubHal
register_direct_channel s = ((invalid_operation, negsuc 0), s)

unfoldable unregister_direct_channel : ℤ → SensorsSubHal → Result × SensorsSubHal
unregister_direct_channel channel_handle s = (invalid_operation, s)

unfoldable config_direct_report : ℤ → ℤ → ℕ → SensorsSubHal → (Result × ℤ) × SensorsSubHal
config_direct_report sensor_handle channel_handle rate s = ((invalid_operation, pos 0), s)

unfoldable pub initialize : Option ℕ → SensorsSubHal → Result × SensorsSubHal
unfolding set_operation_mode
initialize proxy s = (ok, (set_operation_mode normal (record s { callback = proxy })).1)

unfoldable pub get_operation_mode : SensorsSubHal → OperationMode
get_operation_mode s = s.current_operation_mode

unfoldable get_name : String
get_name = "FakeSubHal"

unfoldable pub get_sensors_list_2_1 : SensorsSubHal → List SensorInfo
unfolding Sensor.get_sensor_info
get_sensors_list_2_1 s = map (λ e. Sensor.get_sensor_info e.1) s.sensors

-- The lines that debug prints.
data Line : Type 0 where
  args_ignored : String → Line
  available_sensors blank : Line
  name_line : String → Line
  min_delay_line : ℤ → Line
  flags_line : ℕ → Line

unfoldable debug_sensors : SensorMap → List Line
unfolding Sensor.get_sensor_info
debug_sensors [] = []
debug_sensors ((k, s) ∷ m) =
    let info = Sensor.get_sensor_info s in
    name_line info.name ∷ min_delay_line info.min_delay ∷ flags_line info.flags ∷ debug_sensors m

-- `num_fds` is `none` for a null handle.
unfoldable debug : Option ℕ → List String → SensorsSubHal → List Line
unfolding debug_sensors get_name
debug none args s = []
debug (some num_fds) args s =
    if ltb num_fds 1
    then []
    else (if is_empty args then [] else args_ignored get_name ∷ [])
      ++ available_sensors ∷ debug_sensors s.sensors
      ++ blank ∷ []

module _ (types : HalTypes) where
  unfoldable pub flush : ℤ → SensorsSubHal → Option (Result × SensorsSubHal)
  unfolding find update post_all Sensor.flush
  flush sensor_handle s = elim (find sensor_handle s.sensors) [
    | none ↦ some (bad_value, s)
    | some t ↦
        let (result, posts, t') = Sensor.flush types t in
        with_result result
          (post_all posts (record s { sensors = update sensor_handle (λ _. t') s.sensors }))
  ]

  unfoldable pub inject_sensor_data_2_1 : Event → SensorsSubHal → Option (Result × SensorsSubHal)
  unfolding find update post_all Sensor.inject_event
  inject_sensor_data_2_1 event s = elim (find event.sensor_handle s.sensors) [
    | none ↦ some (bad_value, s)
    | some t ↦
        let (result, posts, t') = Sensor.inject_event types event t in
        with_result result
          (post_all posts (record s { sensors = update event.sensor_handle (λ _. t') s.sensors }))
  ]

  -- A step of the thread of one sensor, whose events go through the sub-HAL.
  unfoldable pub run_sensor : ℤ → Clocks → PollResult → SensorsSubHal → Option SensorsSubHal
  unfolding find update post_all run_thread
  run_sensor sensor_handle clocks result s = elim (find sensor_handle s.sensors) [
    | none ↦ some s
    | some t ↦
        let (posts, t') = run_thread types clocks result t in
        post_all posts (record s { sensors = update sensor_handle (λ _. t') s.sensors })
  ]

  -- AddSensor<UdfpsSensor>; the other arguments are those of Sensor.construct_udfps.
  unfoldable add_sensor : SensorInfo → Option (ℤ × ℤ) → ℤ → SensorsSubHal → SensorsSubHal
  unfolding insert Sensor.construct_udfps Sensor.get_sensor_info
  add_sensor raw ends poll_fd s =
      let sensor = Sensor.construct_udfps types raw s.next_handle ends poll_fd in
      record s {
        sensors = insert (Sensor.get_sensor_info sensor).sensor_handle sensor s.sensors;
        next_handle = s.next_handle +ℤ pos 1;
      }

  unfoldable pub construct : SensorInfo → Option (ℤ × ℤ) → ℤ → SensorsSubHal
  unfolding add_sensor
  construct raw ends poll_fd = add_sensor raw ends poll_fd (record {
    sensors = [];
    callback = none;
    current_operation_mode = normal;
    next_handle = pos 1;
    posted = [];
  })

  -- sensorsHalGetSubHal_2_1: the version, and the one sub-HAL.
  unfoldable sensors_hal_get_sub_hal_2_1 : SensorInfo → Option (ℤ × ℤ) → ℤ → ℕ × SensorsSubHal
  unfolding construct
  sensors_hal_get_sub_hal_2_1 raw ends poll_fd =
      (types.sub_hal_2_1_version, construct raw ends poll_fd)
