-- ===== src/Sensors/OneShot.antt =====
-- sensors/: the UDFPS sensor is a one-shot wake-up sensor.
use android_device_realme_sa.Base.{
  List, Option, [], arith, false, if◌then◌else◌, length, length-append, refl, true, ℕ, ◌+◌, ◌∷◌,
  ◌≡◌, ◌≤◌,
}
use android_device_realme_sa.Base.Int.{ℤ}
use android_device_realme_sa.Sensors.Types.{
  HalTypes, IsDocumented, Sensor, SensorInfo, Thread, dozing, exited, polling, top, udfps, waiting,
}
use android_device_realme_sa.Sensors.Sensor.{construct_udfps, supports_data_injection}
use android_device_realme_sa.Sensors.Histories.{
  SensorEvent, activates, batches, flushes, injects, run, runs, sets_mode, spurious, step,
}

-- The call switches the sensor on.
abbrev switches_on : SensorEvent → Sensor → ℕ
switches_on (activates true) s = if s.is_enabled then 0 else 1
switches_on _ s = 0

-- How often a history switches the sensor on.
pub activations : HalTypes → List SensorEvent → Sensor → ℕ
activations types [] s = 0
activations types (e ∷ es) s = switches_on e s + activations types es (step types e s).1

-- One event is due while the sensor is on, or the thread still polls.
abbrev credit : Sensor → ℕ
credit s = if s.is_enabled then 1 else due s.thread
  where
    due : Thread → ℕ
    due polling = 1
    due top = 0
    due dozing = 0
    due exited = 0
    due (waiting w) = 0

pub record IsUdfps (types : HalTypes) (info : SensorInfo) (s : Sensor) : Type 0 where
  pub is_udfps : s.kind ≡ udfps
  pub same_info : s.sensor_info ≡ info
  pub no_injection : supports_data_injection types s ≡ false

module _ (types : HalTypes) (info : SensorInfo) where
  pub step-IsUdfps :
      (e : SensorEvent) (s : Sensor) → IsUdfps types info s → IsUdfps types info (step types e s).1
  unfolding step supports_data_injection
  step-IsUdfps (activates b) s i = ground arith
  step-IsUdfps (sets_mode m) s i = ground arith
  step-IsUdfps (batches p) s i = ground arith
  step-IsUdfps flushes s i = ground arith
  step-IsUdfps (injects e) s i = ground arith
  step-IsUdfps (runs c r) s i = ground arith
  step-IsUdfps spurious s i = ground arith

  step-credit :
      (e : SensorEvent) (s : Sensor)
      → IsUdfps types info s
      → length (step types e s).0 + credit (step types e s).1 ≤ credit s + switches_on e s
  unfolding step
  step-credit (activates b) s i = ground arith
  step-credit (sets_mode m) s i = ground arith
  step-credit (batches p) s i = ground arith
  step-credit flushes s i = ground arith
  step-credit (injects e) s i = ground arith
  step-credit (runs c r) s i = ground arith
  step-credit spurious s i = ground arith

  run-credit :
      (es : List SensorEvent) (s : Sensor)
      → IsUdfps types info s
      → length (run types es s).0 ≤ credit s + activations types es s
  unfolding run activations
  run-credit [] s i = omega arith
  run-credit (e ∷ es) s i = omega (
    arith,
    length-append (step types e s).0 (run types es (step types e s).1).0,
    step-credit e s i,
    run-credit es (step types e s).1 (step-IsUdfps e s i),
  )

pub construct_udfps-IsUdfps :
    (types : HalTypes) (raw : SensorInfo) (h : ℤ) (ends : Option (ℤ × ℤ)) (fd : ℤ)
    → IsDocumented types
    → let s = construct_udfps types raw h ends fd in IsUdfps types s.sensor_info s
unfolding construct_udfps supports_data_injection
construct_udfps-IsUdfps types raw h ends fd doc = record {
  is_udfps = refl;
  same_info = refl;
  no_injection = rw (doc.one_shot_bits, doc.wake_up_bit, doc.injection_bit);
}

construct_udfps-credit :
    (types : HalTypes) (raw : SensorInfo) (h : ℤ) (ends : Option (ℤ × ℤ)) (fd : ℤ)
    → credit (construct_udfps types raw h ends fd) ≡ 0
unfolding construct_udfps
construct_udfps-credit types raw h ends fd = refl

-- Over every history of the UDFPS sensor from its construction on, the sensor posts at most as many
-- times as it was switched on, if the flag bits are the documented ones.
pub posts-le-activations :
    (types : HalTypes) (raw : SensorInfo) (h : ℤ) (ends : Option (ℤ × ℤ)) (fd : ℤ)
    (es : List SensorEvent)
    → IsDocumented types
    → let s = construct_udfps types raw h ends fd in
      length (run types es s).0 ≤ activations types es s
posts-le-activations types raw h ends fd es doc = omega (
  arith,
  run-credit types _ es (construct_udfps types raw h ends fd)
      (construct_udfps-IsUdfps types raw h ends fd doc),
  construct_udfps-credit types raw h ends fd,
)
