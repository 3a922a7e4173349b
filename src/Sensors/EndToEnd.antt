-- ===== src/Sensors/EndToEnd.antt =====
-- sensors/: from the framework's activate through the sensor's thread to the HAL proxy.
use android_device_realme_sa.Base.{
  All, List, Option, [], ap, arith, false, none, refl, some, subst, suc, sym, true, zero, ℕ, ◌++◌,
  ◌∙◌, ◌∷◌, ◌≡◌,
}
use android_device_realme_sa.Base.Int.{pos, ℤ}
use android_device_realme_sa.Sensors.Types.{HalTypes, Post, Sensor, SensorInfo, normal}
use android_device_realme_sa.Sensors.Sensor
use android_device_realme_sa.Sensors.Sensor.{is_wake_up_sensor}
use android_device_realme_sa.Sensors.Thread.{Clocks, PollResult, run_thread}
use android_device_realme_sa.Sensors.Histories
use android_device_realme_sa.Sensors.Liveness.{
  IsLive, SeesPress, construct_udfps-IsLive, press-posts, step-IsLive, turns,
}
use android_device_realme_sa.Sensors.Modes.{Reach-HasSensor, construct-HasSensor, find-only}
use android_device_realme_sa.Sensors.Histories.{SensorEvent}
use android_device_realme_sa.Sensors.Wakeups.{
  IsAlert, activate-IsAlert, construct_udfps-IsAlert, is_active, step-IsAlert,
}
use android_device_realme_sa.Sensors.Presses.{press_event}
use android_device_realme_sa.Sensors.Reachable.{Reach}
use android_device_realme_sa.Sensors.Lifting.{Reach-All}
use android_device_realme_sa.Sensors.SubHal
use android_device_realme_sa.Sensors.SubHal.{Delivery, SensorsSubHal}
use android_device_realme_sa.Sensors.Dispatch.{deliveries, run_sensor-deliveries}

-- Steps of the thread of one sensor of the sub-HAL, all with the same results of poll().
unfoldable pub run_turns :
    HalTypes → ℤ → Clocks → PollResult → ℕ → SensorsSubHal → Option SensorsSubHal
unfolding SubHal.run_sensor
run_turns types h c r zero s = some s
run_turns types h c r (suc n) s = elim (SubHal.run_sensor types h c r s) [
  | none ↦ none
  | some t ↦ run_turns types h c r n t
]

deliveries-append :
    (proxy : ℕ) (ps qs : List Post) (ds : List Delivery)
    → deliveries proxy (ps ++ qs) ds ≡ deliveries proxy qs (deliveries proxy ps ds)
unfolding deliveries
deliveries-append proxy [] qs ds = refl
deliveries-append proxy (p ∷ ps) qs ds = deliveries-append proxy ps qs _

-- The sub-HAL with its one sensor and what the proxy has been sent.
abbrev holding : SensorsSubHal → Sensor → List Delivery → SensorsSubHal
holding s t ds = record s { sensors = (pos 1, t) ∷ []; posted = ds }

module _ (types : HalTypes) (c : Clocks) (r : PollResult) (s : SensorsSubHal) {proxy : ℕ}
    (initialized : s.callback ≡ some proxy) where
  run_sensor-holding :
      (t : Sensor) (ds : List Delivery)
      → let o = run_thread types c r t in
        SubHal.run_sensor types (pos 1) c r (holding s t ds)
        ≡ some (holding s o.1 (deliveries proxy o.0 ds))
  run_sensor-holding t ds =
      unfold SubHal.find SubHal.update in
      run_sensor-deliveries types (pos 1) c r (holding s t ds) initialized refl

  run_turns-holding :
      (n : ℕ) (t : Sensor) (ds : List Delivery)
      → let o = Histories.run types (turns c r n) t in
        run_turns types (pos 1) c r n (holding s t ds)
        ≡ some (holding s o.1 (deliveries proxy o.0 ds))
  unfolding run_turns turns Histories.run Histories.step deliveries
  run_turns-holding zero t ds = refl
  run_turns-holding (suc n) t ds =
      let o = run_thread types c r t in
      let later = Histories.run types (turns c r n) o.1 in
      rw (run_sensor-holding t ds, run_turns)
        (run_turns-holding n o.1 (deliveries proxy o.0 ds)
          ∙ ap (λ ds'. some (holding s later.1 ds')) (sym (deliveries-append proxy o.0 later.0 ds)))

abbrev IsReady : Sensor → Type 0
IsReady t = IsAlert t × IsLive t

step-IsReady :
    (types : HalTypes) (e : SensorEvent) (t : Sensor)
    → IsReady t
    → IsReady (Histories.step types e t).1
step-IsReady types e t i = (step-IsAlert types e t i.0, step-IsLive types e t i.0 i.1)

Reach-IsReady :
    (types : HalTypes) (raw : SensorInfo) (ends : Option (ℤ × ℤ)) (fd : ℤ) {s : SensorsSubHal}
    → Reach types (SubHal.construct types raw ends fd) s
    → All (λ e. IsReady e.1) s.sensors
unfolding SubHal.construct
Reach-IsReady types raw ends fd r = Reach-All types IsReady (step-IsReady types) r (
  (
    construct_udfps-IsAlert types raw (pos 1) ends fd,
    construct_udfps-IsLive types raw (pos 1) ends fd,
  ),
  tt,
)

activate-event :
    (types : HalTypes) (r : PollResult) (t : Sensor)
    → press_event types r (Sensor.activate true t).2 ≡ press_event types r t
unfolding press_event Sensor.activate is_wake_up_sensor
activate-event types r t = ground arith

activate-SeesPress :
    (r : PollResult) (t : Sensor) → SeesPress r t → SeesPress r (Sensor.activate true t).2
unfolding Sensor.activate
activate-SeesPress r t e = ground arith

activate-IsLive : (t : Sensor) → IsLive t → IsLive (Sensor.activate true t).2
unfolding Sensor.activate
activate-IsLive t i = ground arith

activate-starts :
    (t : Sensor)
    → t.mode ≡ normal
    → t.stop_thread ≡ false
    → let u = (Sensor.activate true t).2 in (is_active u ≡ true) × (u.stop_thread ≡ false)
unfolding Sensor.activate
activate-starts t m h = ground arith

activate-holding :
    (s : SensorsSubHal) (t : Sensor)
    → s.sensors ≡ (pos 1, t) ∷ []
    → (SubHal.activate (pos 1) true s).1 ≡ holding s (Sensor.activate true t).2 s.posted
unfolding SubHal.activate
activate-holding s t only =
    ap (λ m. (SubHal.activate (pos 1) true (record s { sensors = m })).1) only

-- An initialised sub-HAL in normal mode, in any reachable state in which the sensor's thread has not been
-- told to stop, as it is for good once a poll() has failed: once the framework has switched the sensor
-- on, three steps of the thread that see a press, wherever it stood, send the proxy the sensor's event
-- with the coordinates of the press as floats, and further steps send nothing else.
pub press_delivered :
    (types : HalTypes) (raw : SensorInfo) (ends : Option (ℤ × ℤ)) (fd : ℤ) (c : Clocks)
    (r : PollResult) (n : ℕ) {s : SensorsSubHal} {t : Sensor} {proxy : ℕ}
    → Reach types (SubHal.construct types raw ends fd) s
    → s.callback ≡ some proxy
    → SubHal.get_operation_mode s ≡ normal
    → SubHal.find (pos 1) s.sensors ≡ some t
    → t.stop_thread ≡ false
    → SeesPress r t
    → (u : SensorsSubHal) × (run_turns types
          (pos 1)
          c
          r
          (suc (suc (suc n)))
          (SubHal.activate (pos 1) true s).1
        ≡ some u)
      × (u.posted ≡ deliveries proxy (press_event types r t ∷ []) s.posted)
unfolding SubHal.get_operation_mode
press_delivered types raw ends fd c r n {s} {t} {proxy} reach initialized mode found goes press =
    let i = Reach-HasSensor types _ (construct-HasSensor types raw ends fd) reach in
    let same : t ≡ i.sensor = find-only _ (pos 1) s i found in
    let only : s.sensors ≡ (pos 1, t) ∷ [] = i.only ∙ ap (λ v. (pos 1, v) ∷ []) (sym same) in
    let ready = (subst (All λ e. IsReady e.1) only (Reach-IsReady types raw ends fd reach)).0 in
    let in_mode : t.mode ≡ normal = ap (λ (v : Sensor). v.mode) same ∙ i.same_mode ∙ mode in
    let (active, going) = activate-starts t in_mode goes in
    let t' = (Sensor.activate true t).2 in
    let answered =
      press-posts types c r n t' (activate-IsAlert true t ready.0) (activate-IsLive t ready.1)
        active going (activate-SeesPress r t press) in
    let o = Histories.run types (turns c r (suc (suc (suc n)))) t' in
    (
      holding s o.1 (deliveries proxy o.0 s.posted),
      ap (run_turns types (pos 1) c r (suc (suc (suc n)))) (activate-holding s t only)
          ∙ run_turns-holding types c r s initialized (suc (suc (suc n))) t' s.posted,
      ap (λ ps. deliveries proxy ps s.posted)
          (answered.0 ∙ ap (λ p. p ∷ []) (activate-event types r t)),
    )
