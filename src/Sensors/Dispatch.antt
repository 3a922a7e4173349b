-- ===== src/Sensors/Dispatch.antt =====
-- sensors/SensorsSubHal.cpp: which sensor a call reaches, and where its events go.
use android_device_realme_sa.Base.{
  Bool, List, Option, [], arith, if◌then◌else◌, map, map_option, none, refl, some, true, ℕ, ◌∷◌,
  ◌≡◌, ◌≢◌,
}
use android_device_realme_sa.Base.Int.{eq_ℤ, ℤ}
use android_device_realme_sa.Base.Words.{to_i32}
use android_device_realme_sa.Sensors.Sensor
use android_device_realme_sa.Sensors.Thread.{Clocks, PollResult, run_thread}
use android_device_realme_sa.Sensors.Types.{
  HalTypes, OperationMode, Payload, Post, Sensor, bad_value,
}
use android_device_realme_sa.Sensors.SubHal
use android_device_realme_sa.Sensors.SubHal.{Delivery, SensorMap, SensorsSubHal}

-- A call for a handle that no sensor has is refused with BAD_VALUE and changes nothing.
pub unknown_handle :
    (types : HalTypes) (h : ℤ) (s : SensorsSubHal)
    → SubHal.find h s.sensors ≡ none
    → ((enabled : Bool) → SubHal.activate h enabled s ≡ (bad_value, s))
      × ((period latency : ℤ) → SubHal.batch h period latency s ≡ (bad_value, s))
      × (SubHal.flush types h s ≡ some (bad_value, s))
      × ((type : ℤ) (time : Option ℕ) (p : Payload)
          → SubHal.inject_sensor_data_2_1 types
              (record { sensor_handle = h; sensor_type = type; timestamp = time; payload = p })
              s
            ≡ some (bad_value, s))
unfolding SubHal.activate SubHal.batch SubHal.flush SubHal.inject_sensor_data_2_1
unknown_handle types h s e = (
  λ enabled. rw (e, SubHal.activate),
  λ period latency. rw (e, SubHal.batch),
  rw (e, SubHal.flush),
  λ type time p. rw (e, SubHal.inject_sensor_data_2_1),
)

-- A change of the sensor at one handle is seen there and nowhere else.
pub find-update :
    (h j : ℤ) (f : Sensor → Sensor) (m : SensorMap)
    → SubHal.find j (SubHal.update h f m)
      ≡ (if eq_ℤ h j then map_option f (SubHal.find j m) else SubHal.find j m)
unfolding SubHal.find SubHal.update
find-update h j f [] = ground arith
find-update h j f ((k, s) ∷ m) = ground (arith, find-update h j f m)

find-map :
    (j : ℤ) (f : Sensor → Sensor) (m : SensorMap)
    → SubHal.find j (map (λ e. (e.0, f e.1)) m) ≡ map_option f (SubHal.find j m)
unfolding SubHal.find
find-map j f [] = refl
find-map j f ((k, s) ∷ m) = ground (arith, find-map j f m)

same_handle : (a b : ℤ) → eq_ℤ a b ≡ true → a ≡ b
same_handle a b h = ground arith

-- activate and batch reach exactly the sensor with the given handle, if there is one, with the
-- sensor's own method; the period is narrowed to an int32_t on the way. setOperationMode reaches
-- every sensor and becomes the current mode.
pub calls_reach_sensor :
    (h j : ℤ) (enabled : Bool) (period latency : ℤ) (mode : OperationMode) (s : SensorsSubHal)
    → let reached = λ (f : Sensor → Sensor).
      if eq_ℤ h j then map_option f (SubHal.find j s.sensors) else SubHal.find j s.sensors in
      (SubHal.find j (SubHal.activate h enabled s).1.sensors
        ≡ reached (λ t. (Sensor.activate enabled t).2))
      × (SubHal.find j (SubHal.batch h period latency s).1.sensors
          ≡ reached (λ t. (Sensor.batch (to_i32 period) t).2))
      × (SubHal.find j (SubHal.set_operation_mode mode s).1.sensors
          ≡ map_option (λ t. (Sensor.set_operation_mode mode t).2) (SubHal.find j s.sensors))
      × (SubHal.get_operation_mode (SubHal.set_operation_mode mode s).1 ≡ mode)
unfolding SubHal.activate SubHal.batch SubHal.set_operation_mode SubHal.get_operation_mode
calls_reach_sensor h j enabled period latency mode s = (
  ground (
    arith,
    find-update h j (λ (t : Sensor). (Sensor.activate enabled t).2) s.sensors,
    same_handle h j,
  ),
  ground (
    arith,
    find-update h j (λ (t : Sensor). (Sensor.batch (to_i32 period) t).2) s.sensors,
    same_handle h j,
  ),
  find-map j (λ t. (Sensor.set_operation_mode mode t).2) s.sensors,
  refl,
)

-- What the proxy is sent for a list of posts, newest first.
unfoldable pub deliveries : ℕ → List Post → List Delivery → List Delivery
deliveries proxy [] ds = ds
deliveries proxy (p ∷ ps) ds =
    deliveries proxy ps (record { proxy = proxy; events = p.events; wakeup = p.wakeup } ∷ ds)

post_all-deliveries :
    (proxy : ℕ) (ps : List Post) (s : SensorsSubHal)
    → s.callback ≡ some proxy
    → SubHal.post_all ps s ≡ some (record s { posted = deliveries proxy ps s.posted })
unfolding SubHal.post_all deliveries
post_all-deliveries proxy [] s e = refl
post_all-deliveries proxy (p ∷ ps) s e = ground (
  arith,
  post_all-deliveries proxy ps
      (record s {
        posted = record { proxy = proxy; events = p.events; wakeup = p.wakeup } ∷ s.posted;
      })
      e,
)

-- With a proxy set, a step of a sensor's thread does not fail: it changes that sensor only, and the
-- proxy is sent exactly the events that the sensor posts, in order and with their wake locks.
pub run_sensor-deliveries :
    (types : HalTypes) (h : ℤ) (c : Clocks) (r : PollResult) (s : SensorsSubHal) {t : Sensor}
    {proxy : ℕ}
    → s.callback ≡ some proxy
    → SubHal.find h s.sensors ≡ some t
    → SubHal.run_sensor types h c r s
      ≡ some (record s {
        sensors = SubHal.update h (λ _. (run_thread types c r t).1) s.sensors;
        posted = deliveries proxy (run_thread types c r t).0 s.posted;
      })
unfolding SubHal.run_sensor
run_sensor-deliveries types h c r s {t} {proxy} e found =
    rw (found, SubHal.run_sensor) (post_all-deliveries proxy (run_thread types c r t).0 _ e)

-- Without a proxy any event is lost in a use of the null pointer.
pub run_sensor_uninitialized :
    (types : HalTypes) (h : ℤ) (c : Clocks) (r : PollResult) (s : SensorsSubHal) {t : Sensor}
    → s.callback ≡ none
    → SubHal.find h s.sensors ≡ some t
    → (run_thread types c r t).0 ≢ []
    → SubHal.run_sensor types h c r s ≡ none
unfolding SubHal.run_sensor
run_sensor_uninitialized types h c r s {t} e found posts =
    rw (found, SubHal.run_sensor) (post_all_null (run_thread types c r t).0 _ e posts)
  where
    post_all_null :
        (ps : List Post) (u : SensorsSubHal)
        → u.callback ≡ none
        → ps ≢ []
        → SubHal.post_all ps u ≡ none
    post_all_null [] u e n = absurd (n refl)
    post_all_null (p ∷ ps) u e n = rw (e, SubHal.post_all)
