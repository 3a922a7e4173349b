-- ===== src/Sensors/Modes.antt =====
-- sensors/: every reachable state of the sub-HAL.
use android_device_realme_sa.Base.{
  Bool-cases, List, Option, Option-cases, [], ap, arith, inl, inr, is_some, refl, some, subst, ◌∙◌,
  ◌∷◌, ◌≡◌,
}
use android_device_realme_sa.Base.Int.{pos, ℤ}
use android_device_realme_sa.Base.Words.{to_i32}
use android_device_realme_sa.Sensors.Sensor
use android_device_realme_sa.Sensors.Types.{
  Event, HalTypes, Post, Result, Sensor, SensorInfo, normal,
}
use android_device_realme_sa.Sensors.Thread.{Clocks, PollResult, run_thread}
use android_device_realme_sa.Sensors.SubHal
use android_device_realme_sa.Sensors.SubHal.{SensorsSubHal}
use android_device_realme_sa.Sensors.Reachable.{
  HasSensor, Keeps, Reach, Step, activate-Keeps, activates, batch-Keeps, batches, flush-same,
  flushes, here, initializes, inject_event-same, injects, next, post_all-same, run_thread-Keeps,
  runs, same-HasSensor, set_operation_mode-HasSensor, sets_mode, update-HasSensor, with_result-some,
}

pub find-only :
    (info : SensorInfo) (h : ℤ) (s : SensorsSubHal) {t : Sensor}
    → (i : HasSensor info s) → SubHal.find h s.sensors ≡ some t
    → t ≡ i.sensor
unfolding SubHal.find
find-only info h s {t} i e = found i.sensor (subst (λ m. SubHal.find h m ≡ some t) i.only e)
  where
    found : (u : Sensor) {t : Sensor} → SubHal.find h ((pos 1, u) ∷ []) ≡ some t → t ≡ u
    found u e = ground arith

-- What a call through the map does, when it puts a kept sensor back and posts.
posting-HasSensor :
    (info : SensorInfo) (h : ℤ) (u : Sensor) (ps : List Post) (s : SensorsSubHal)
    {t : SensorsSubHal}
    → (i : HasSensor info s) → Keeps (λ _. u) i.sensor
    → SubHal.post_all ps (record s { sensors = SubHal.update h (λ _. u) s.sensors }) ≡ some t
    → HasSensor info t
posting-HasSensor info h u ps s {t} i k e =
    same-HasSensor info _ t (post_all-same ps _ e) (update-HasSensor info h (λ _. u) s i k)

Keeps-of_eq : (u t : Sensor) → u ≡ t → Keeps (λ _. u) t
Keeps-of_eq u t e = (ap (λ (s : Sensor). s.sensor_info) e, ap (λ (s : Sensor). s.mode) e)

module _ (types : HalTypes) (info : SensorInfo) where
  flush-HasSensor :
      (h : ℤ) (s : SensorsSubHal) {r : Result} {t : SensorsSubHal}
      → SubHal.flush types h s ≡ some (r, t)
      → HasSensor info s
      → HasSensor info t
  unfolding SubHal.flush
  flush-HasSensor h s {r} {t} e i = elim (Option-cases (SubHal.find h s.sensors)) [
    | inl missing ↦ subst (HasSensor info) (ground (arith, missing)) i
    | inr (u, found) ↦
        let (result, posts, u') = Sensor.flush types u in
        posting-HasSensor info h u' posts s i
          (Keeps-of_eq u' i.sensor (flush-same types u ∙ find-only info h s i found))
          (with_result-some result _ (rw (found, SubHal.flush) at e))
  ]

  inject-HasSensor :
      (e : Event) (s : SensorsSubHal) {r : Result} {t : SensorsSubHal}
      → SubHal.inject_sensor_data_2_1 types e s ≡ some (r, t)
      → HasSensor info s
      → HasSensor info t
  unfolding SubHal.inject_sensor_data_2_1
  inject-HasSensor v s {r} {t} e i = elim (Option-cases (SubHal.find v.sensor_handle s.sensors)) [
    | inl missing ↦ subst (HasSensor info) (ground (arith, missing)) i
    | inr (u, found) ↦
        let (result, posts, u') = Sensor.inject_event types v u in
        posting-HasSensor info v.sensor_handle u' posts s i
          (Keeps-of_eq u' i.sensor
            (inject_event-same types v u ∙ find-only info v.sensor_handle s i found))
          (with_result-some result _ (rw (found, SubHal.inject_sensor_data_2_1) at e))
  ]

  run_sensor-HasSensor :
      (h : ℤ) (c : Clocks) (r : PollResult) (s : SensorsSubHal) {t : SensorsSubHal}
      → SubHal.run_sensor types h c r s ≡ some t
      → HasSensor info s
      → HasSensor info t
  unfolding SubHal.run_sensor
  run_sensor-HasSensor h c r s {t} e i = elim (Option-cases (SubHal.find h s.sensors)) [
    | inl missing ↦ subst (HasSensor info) (ground (arith, missing)) i
    | inr (u, found) ↦
        let (posts, u') = run_thread types c r u in
        let same = find-only info h s i found in
        let (info', mode') = run_thread-Keeps types c r u in
        posting-HasSensor info h u' posts s i
          (
            info' ∙ ap (λ (v : Sensor). v.sensor_info) same,
            mode' ∙ ap (λ (v : Sensor). v.mode) same,
          )
          (rw (found, SubHal.run_sensor) at e)
  ]

  Step-HasSensor : {s t : SensorsSubHal} → Step types s t → HasSensor info s → HasSensor info t
  unfolding SubHal.initialize SubHal.activate SubHal.batch
  Step-HasSensor {s} (initializes proxy) i =
      set_operation_mode-HasSensor info normal (record s { callback = proxy })
        (same-HasSensor info s (record s { callback = proxy }) (refl, refl) i)
  Step-HasSensor {s} (sets_mode mode) i = set_operation_mode-HasSensor info mode s i
  Step-HasSensor {s} (activates h b) i = elim (Bool-cases (is_some (SubHal.find h s.sensors))) [
    | inl there ↦
        rw there
          (update-HasSensor info h (λ u. (Sensor.activate b u).2) s i (activate-Keeps b i.sensor))
    | inr missing ↦ rw missing i
  ]
  Step-HasSensor {s} (batches h p l) i = elim (Bool-cases (is_some (SubHal.find h s.sensors))) [
    | inl there ↦ rw there (
        update-HasSensor info h (λ u. (Sensor.batch (to_i32 p) u).2) s i
          (batch-Keeps (to_i32 p) i.sensor))
    | inr missing ↦ rw missing i
  ]
  Step-HasSensor {s} (flushes h e) i = flush-HasSensor h s e i
  Step-HasSensor {s} (injects v e) i = inject-HasSensor v s e i
  Step-HasSensor {s} (runs h c r e) i = run_sensor-HasSensor h c r s e i

  pub Reach-HasSensor :
      {s t : SensorsSubHal} → HasSensor info s → Reach types s t → HasSensor info t
  Reach-HasSensor i here = i
  Reach-HasSensor i (next r st) = Step-HasSensor st (Reach-HasSensor i r)

pub construct-HasSensor :
    (types : HalTypes) (raw : SensorInfo) (ends : Option (ℤ × ℤ)) (fd : ℤ)
    → HasSensor
        (Sensor.construct_udfps types raw (pos 1) ends fd).sensor_info
        (SubHal.construct types raw ends fd)
unfolding SubHal.construct
construct-HasSensor types raw ends fd = record {
  sensor = Sensor.construct_udfps types raw (pos 1) ends fd;
  only = refl;
  same_info = refl;
  same_mode = refl;
}

-- In every reachable state of the sub-HAL there is exactly one sensor, with handle 1; getSensorsList
-- gives its description as it was constructed, and its mode is the sub-HAL's current mode.
pub one_sensor :
    (types : HalTypes) (raw : SensorInfo) (ends : Option (ℤ × ℤ)) (fd : ℤ) {s : SensorsSubHal}
    → Reach types (SubHal.construct types raw ends fd) s
    → (t : Sensor) × (s.sensors ≡ (pos 1, t) ∷ [])
      × (SubHal.get_sensors_list_2_1 s
          ≡ (Sensor.construct_udfps types raw (pos 1) ends fd).sensor_info ∷ [])
      × (t.mode ≡ SubHal.get_operation_mode s)
unfolding SubHal.get_sensors_list_2_1 SubHal.get_operation_mode
one_sensor types raw ends fd r =
    let i = Reach-HasSensor types _ (construct-HasSensor types raw ends fd) r in
    (i.sensor, i.only, rw (i.only) (rw (i.same_info)), i.same_mode)
