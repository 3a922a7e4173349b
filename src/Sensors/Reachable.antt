-- ===== src/Sensors/Reachable.antt =====
-- sensors/: the steps of the sub-HAL, and what each operation keeps of its sensor.
use android_device_realme_sa.Base.{
  Bool, Bool-cases, List, Option, Option-cases, [], arith, inl, inr, none, some, sym, ℕ, ◌∙◌, ◌∷◌,
  ◌≡◌,
}
use android_device_realme_sa.Base.Int.{eq_ℤ, pos, ℤ}
use android_device_realme_sa.Sensors.Sensor
use android_device_realme_sa.Sensors.Types.{
  Event, HalTypes, OperationMode, Post, Result, Sensor, SensorInfo,
}
use android_device_realme_sa.Sensors.Thread.{Clocks, PollResult, run_thread}
use android_device_realme_sa.Sensors.SubHal
use android_device_realme_sa.Sensors.SubHal.{SensorsSubHal}

-- The calls of the framework and the steps of the sensors' threads, in any order.
pub data Step (types : HalTypes) (s : SensorsSubHal) : SensorsSubHal → Type 0 where
  initializes : (proxy : Option ℕ) → Step types s (SubHal.initialize proxy s).1
  sets_mode : (mode : OperationMode) → Step types s (SubHal.set_operation_mode mode s).1
  activates : (h : ℤ) (enabled : Bool) → Step types s (SubHal.activate h enabled s).1
  batches : (h period latency : ℤ) → Step types s (SubHal.batch h period latency s).1
  flushes :
      (h : ℤ) {r : Result} {t : SensorsSubHal}
      → SubHal.flush types h s ≡ some (r, t)
      → Step types s t
  injects :
      (e : Event) {r : Result} {t : SensorsSubHal}
      → SubHal.inject_sensor_data_2_1 types e s ≡ some (r, t)
      → Step types s t
  runs :
      (h : ℤ) (c : Clocks) (r : PollResult) {t : SensorsSubHal}
      → SubHal.run_sensor types h c r s ≡ some t
      → Step types s t

pub data Reach (types : HalTypes) (s : SensorsSubHal) : SensorsSubHal → Type 0 where
  here : Reach types s s
  next : {t u : SensorsSubHal} → Reach types s t → Step types t u → Reach types s u

-- There is the one sensor, with an unchanged description, and it is in the current mode.
pub record HasSensor (info : SensorInfo) (s : SensorsSubHal) : Type 0 where
  pub sensor : Sensor
  pub only : s.sensors ≡ (pos 1, sensor) ∷ []
  pub same_info : sensor.sensor_info ≡ info
  pub same_mode : sensor.mode ≡ s.current_operation_mode

pub post_all-same :
    (ps : List Post) (s : SensorsSubHal) {t : SensorsSubHal}
    → SubHal.post_all ps s ≡ some t
    → (t.sensors ≡ s.sensors) × (t.current_operation_mode ≡ s.current_operation_mode)
unfolding SubHal.post_all
post_all-same [] s e = ground arith
post_all-same (p ∷ ps) s e = elim (Option-cases s.callback) [
  | inl missing ↦ cc (rw (missing, SubHal.post_all) at e)
  | inr (k, there) ↦
      post_all-same ps
        (record s {
          posted = record { proxy = k; events = p.events; wakeup = p.wakeup } ∷ s.posted;
        })
        (rw (there, SubHal.post_all) at e)
]

pub with_result-some :
    (q : Result) (o : Option SensorsSubHal) {r : Result} {t : SensorsSubHal}
    → SubHal.with_result q o ≡ some (r, t)
    → o ≡ some t
with_result-some q none e = cc
with_result-some q (some u) e = ground arith

-- A method that keeps the description and the mode of a sensor.
abbrev pub Keeps : (Sensor → Sensor) → Sensor → Type 0
Keeps f t = ((f t).sensor_info ≡ t.sensor_info) × ((f t).mode ≡ t.mode)

pub update-HasSensor :
    (info : SensorInfo) (h : ℤ) (f : Sensor → Sensor) (s : SensorsSubHal)
    → (i : HasSensor info s) → Keeps f i.sensor
    → HasSensor info (record s { sensors = SubHal.update h f s.sensors })
unfolding SubHal.update
update-HasSensor info h f s i k = elim (Bool-cases (eq_ℤ (pos 1) h)) [
  | inl hit ↦ record {
    sensor = f i.sensor;
    only = rw (i.only, SubHal.update) (rw hit);
    same_info = k.0 ∙ i.same_info;
    same_mode = k.1 ∙ i.same_mode;
  }
  | inr miss ↦ record {
    sensor = i.sensor;
    only = rw (i.only, SubHal.update) (rw miss);
    same_info = i.same_info;
    same_mode = i.same_mode;
  }
]

pub same-HasSensor :
    (info : SensorInfo) (s t : SensorsSubHal)
    → (t.sensors ≡ s.sensors) × (t.current_operation_mode ≡ s.current_operation_mode)
    → HasSensor info s
    → HasSensor info t
same-HasSensor info s t e i = record {
  sensor = i.sensor;
  only = e.0 ∙ i.only;
  same_info = i.same_info;
  same_mode = i.same_mode ∙ sym (e.1);
}

pub set_operation_mode-HasSensor :
    (info : SensorInfo) (mode : OperationMode) (s : SensorsSubHal)
    → HasSensor info s
    → HasSensor info (SubHal.set_operation_mode mode s).1
unfolding SubHal.set_operation_mode
set_operation_mode-HasSensor info mode s i = record {
  sensor = (Sensor.set_operation_mode mode i.sensor).2;
  only = rw i.only;
  same_info = ground (arith, i.same_info);
  same_mode = ground arith;
}

pub activate-Keeps : (b : Bool) (t : Sensor) → Keeps (λ u. (Sensor.activate b u).2) t
unfolding Sensor.activate
activate-Keeps b t = ground arith

pub batch-Keeps : (p : ℤ) (t : Sensor) → Keeps (λ u. (Sensor.batch p u).2) t
unfolding Sensor.batch
batch-Keeps p t = ground arith

pub flush-same : (types : HalTypes) (t : Sensor) → (Sensor.flush types t).2 ≡ t
unfolding Sensor.flush
flush-same types t = ground arith

pub inject_event-same :
    (types : HalTypes) (e : Event) (t : Sensor) → (Sensor.inject_event types e t).2 ≡ t
unfolding Sensor.inject_event
inject_event-same types e t = ground arith

pub run_thread-Keeps :
    (types : HalTypes) (c : Clocks) (r : PollResult) (t : Sensor)
    → ((run_thread types c r t).1.sensor_info ≡ t.sensor_info)
      × ((run_thread types c r t).1.mode ≡ t.mode)
unfolding run_thread
run_thread-Keeps types c r t = ground arith
