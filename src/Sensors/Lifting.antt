-- ===== src/Sensors/Lifting.antt =====
-- sensors/: invariants of a single sensor, for all the sensors of a sub-HAL.
use android_device_realme_sa.Base.{
  All, Bool-cases, List, Option-cases, [], arith, inl, inr, is_some, map, some, subst, sym, ◌∷◌,
  ◌≡◌,
}
use android_device_realme_sa.Base.Int.{eq_ℤ, ℤ}
use android_device_realme_sa.Sensors.Types.{Event, HalTypes, Post, Result, Sensor, normal}
use android_device_realme_sa.Sensors.Sensor
use android_device_realme_sa.Sensors.Histories
use android_device_realme_sa.Sensors.Histories.{
  SensorEvent, activates, batches, flushes, injects, runs, sets_mode,
}
use android_device_realme_sa.Sensors.SubHal
use android_device_realme_sa.Sensors.SubHal.{SensorMap, SensorsSubHal}
use android_device_realme_sa.Sensors.Reachable
use android_device_realme_sa.Sensors.Reachable.{Reach, Step}
use android_device_realme_sa.Sensors.Thread.{Clocks, PollResult, run_thread}
use android_device_realme_sa.Base.Words.{to_i32}

module _ (types : HalTypes) (P : Sensor → Type 0)
    (kept : (e : SensorEvent) (s : Sensor) → P s → P (Histories.step types e s).1) where
  abbrev pub AllSensors : SensorMap → Type 0
  AllSensors = All λ e. P e.1

  pub find-P : (h : ℤ) (m : SensorMap) {t : Sensor} → SubHal.find h m ≡ some t → AllSensors m → P t
  unfolding SubHal.find
  find-P h [] e a = cc
  find-P h ((k, s) ∷ m) {t} e a = elim (Bool-cases (eq_ℤ k h)) [
    | inl hit ↦ let same : some s ≡ some t = rw hit at e in subst P (cc same) a.0
    | inr miss ↦ find-P h m (rw miss at e) a.1
  ]

  update-All :
      (h : ℤ) (f : Sensor → Sensor) (m : SensorMap)
      → ((s : Sensor) → P s → P (f s))
      → AllSensors m
      → AllSensors (SubHal.update h f m)
  unfolding SubHal.update
  update-All h f [] k a = tt
  update-All h f ((j, s) ∷ m) k a = elim (Bool-cases (eq_ℤ j h)) [
    | inl hit ↦ rw hit (k s a.0, a.1)
    | inr miss ↦ rw miss (a.0, update-All h f m k a.1)
  ]

  map-All :
      (f : Sensor → Sensor) (m : SensorMap)
      → ((s : Sensor) → P s → P (f s))
      → AllSensors m
      → AllSensors (map (λ e. (e.0, f e.1)) m)
  map-All f [] k a = tt
  map-All f ((j, s) ∷ m) k a = (k s a.0, map-All f m k a.1)

  -- A call whose events go to the proxy, and which leaves the sensor as `u`.
  posting-All :
      (h : ℤ) (u : Sensor) (ps : List Post) (s : SensorsSubHal) {t : SensorsSubHal}
      → P u
      → SubHal.post_all ps (record s { sensors = SubHal.update h (λ _. u) s.sensors }) ≡ some t
      → AllSensors s.sensors
      → AllSensors t.sensors
  posting-All h u ps s {t} p e a =
      subst AllSensors (sym (Reachable.post_all-same ps _ e).0)
        (update-All h (λ _. u) s.sensors (λ _ _. p) a)

  flush-All :
      (h : ℤ) (s : SensorsSubHal) {r : Result} {t : SensorsSubHal}
      → SubHal.flush types h s ≡ some (r, t)
      → AllSensors s.sensors
      → AllSensors t.sensors
  unfolding SubHal.flush Histories.step
  flush-All h s {r} {t} e a = elim (Option-cases (SubHal.find h s.sensors)) [
    | inl missing ↦ subst AllSensors {y = t.sensors} (ground (arith, missing)) a
    | inr (u, found) ↦
        let (result, posts, u') = Sensor.flush types u in
        posting-All h u' posts s (kept flushes u (find-P h s.sensors found a))
          (Reachable.with_result-some result _ (rw (found, SubHal.flush) at e)) a
  ]

  inject-All :
      (v : Event) (s : SensorsSubHal) {r : Result} {t : SensorsSubHal}
      → SubHal.inject_sensor_data_2_1 types v s ≡ some (r, t)
      → AllSensors s.sensors
      → AllSensors t.sensors
  unfolding SubHal.inject_sensor_data_2_1 Histories.step
  inject-All v s {r} {t} e a = elim (Option-cases (SubHal.find v.sensor_handle s.sensors)) [
    | inl missing ↦ subst AllSensors {y = t.sensors} (ground (arith, missing)) a
    | inr (u, found) ↦
        let (result, posts, u') = Sensor.inject_event types v u in
        posting-All v.sensor_handle u' posts s
          (kept (injects v) u (find-P v.sensor_handle s.sensors found a))
          (Reachable.with_result-some result _ (rw (found, SubHal.inject_sensor_data_2_1) at e)) a
  ]

  run_sensor-All :
      (h : ℤ) (c : Clocks) (r : PollResult) (s : SensorsSubHal) {t : SensorsSubHal}
      → SubHal.run_sensor types h c r s ≡ some t
      → AllSensors s.sensors
      → AllSensors t.sensors
  unfolding SubHal.run_sensor Histories.step
  run_sensor-All h c r s {t} e a = elim (Option-cases (SubHal.find h s.sensors)) [
    | inl missing ↦ subst AllSensors {y = t.sensors} (ground (arith, missing)) a
    | inr (u, found) ↦
        let (posts, u') = run_thread types c r u in
        posting-All h u' posts s (kept (runs c r) u (find-P h s.sensors found a))
          (rw (found, SubHal.run_sensor) at e) a
  ]

  Step-All : {s t : SensorsSubHal} → Step types s t → AllSensors s.sensors → AllSensors t.sensors
  unfolding SubHal.initialize SubHal.set_operation_mode SubHal.activate SubHal.batch Histories.step
  Step-All {s} (Reachable.initializes proxy) a =
      map-All (λ u. (Sensor.set_operation_mode normal u).2) s.sensors
        (λ u. kept (sets_mode normal) u) a
  Step-All {s} (Reachable.sets_mode mode) a =
      map-All (λ u. (Sensor.set_operation_mode mode u).2) s.sensors (λ u. kept (sets_mode mode) u) a
  Step-All {s} (Reachable.activates h b) a = elim (Bool-cases (is_some (SubHal.find h s.sensors))) [
    | inl there ↦
        rw there
          (update-All h (λ u. (Sensor.activate b u).2) s.sensors (λ u. kept (activates b) u) a)
    | inr missing ↦ rw missing a
  ]
  Step-All {s} (Reachable.batches h p l) a = elim (Bool-cases (is_some (SubHal.find h s.sensors))) [
    | inl there ↦ rw there (
        update-All h (λ u. (Sensor.batch (to_i32 p) u).2) s.sensors
          (λ u. kept (batches (to_i32 p)) u) a)
    | inr missing ↦ rw missing a
  ]
  Step-All {s} (Reachable.flushes h e) a = flush-All h s e a
  Step-All {s} (Reachable.injects v e) a = inject-All v s e a
  Step-All {s} (Reachable.runs h c r e) a = run_sensor-All h c r s e a

  pub Reach-All :
      {s t : SensorsSubHal} → Reach types s t → AllSensors s.sensors → AllSensors t.sensors
  Reach-All Reachable.here a = a
  Reach-All (Reachable.next r st) a = Step-All st (Reach-All r a)
