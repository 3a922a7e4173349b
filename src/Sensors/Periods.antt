-- ===== src/Sensors/Periods.antt =====
-- sensors/: sampling periods, from the framework's int64_t to the sensor's clamped period.
use android_device_realme_sa.Base.{ap, arith, if◌then◌else◌, ltb, ℕ, ◌*◌, ◌-◌, ◌<◌, ◌∙◌, ◌≡◌, ◌≤◌}
use android_device_realme_sa.Base.Int.{eq_of_parts, eq_ℤ, negsuc, pos, ℤ, ◌*ℤ◌}
use android_device_realme_sa.Base.Words.{to_i32}
use android_device_realme_sa.Sensors.Sensor
use android_device_realme_sa.Sensors.Types.{Sensor, plain}

-- The delays of a sensor in microseconds, whose products by 1000 fit an int32_t.
pub record HasDelays (lo hi : ℕ) (s : Sensor) : Type 0 where
  pub is_plain : s.kind ≡ plain
  pub min_delay : s.sensor_info.min_delay ≡ pos lo
  pub max_delay : s.sensor_info.max_delay ≡ pos hi
  pub ordered : lo ≤ hi
  pub fits : hi * 1000 < 2147483648

to_i32-fits : (n : ℕ) → n < 2147483648 → to_i32 (pos n) ≡ pos n
to_i32-fits n h = ground arith

delay_product : (n : ℕ) → n * 1000 < 2147483648 → to_i32 (pos n *ℤ pos 1000) ≡ pos (n * 1000)
delay_product n h = ground arith

-- The period of a sensor after batch, from the products of its delays.
batch_plain-period :
    (v : ℤ) (s : Sensor)
    → let p =
        Sensor.clamp_ℤ v
          (to_i32 (s.sensor_info.min_delay *ℤ pos 1000))
          (to_i32 (s.sensor_info.max_delay *ℤ pos 1000)) in
      (Sensor.batch_plain v s).sampling_period_ns ≡ p
unfolding Sensor.batch_plain
batch_plain-period v s = keep_or_set (
    Sensor.clamp_ℤ v (to_i32 (s.sensor_info.min_delay *ℤ pos 1000))
      (to_i32 (s.sensor_info.max_delay *ℤ pos 1000)))
  where
    keep_or_set :
        (p : ℤ)
        → (if eq_ℤ s.sampling_period_ns p
            then s
            else Sensor.notify_all (record s { sampling_period_ns = p })).sampling_period_ns
          ≡ p
    keep_or_set p = ground (arith, eq_of_parts s.sampling_period_ns p)

batch-period :
    (lo hi : ℕ) (v : ℤ) (s : Sensor)
    → HasDelays lo hi s
    → (Sensor.batch v s).2.sampling_period_ns ≡ Sensor.clamp_ℤ v (pos (lo * 1000)) (pos (hi * 1000))
unfolding Sensor.batch
batch-period lo hi v s d =
    ap (λ k. (Sensor.batch_kind k v s).sampling_period_ns) d.is_plain
    ∙ batch_plain-period v s
    ∙ ap (clamped (to_i32 (s.sensor_info.max_delay *ℤ pos 1000)))
        (ap product d.min_delay ∙ delay_product lo (omega (arith, d.ordered, d.fits)))
    ∙ ap (Sensor.clamp_ℤ v (pos (lo * 1000))) (ap product d.max_delay ∙ delay_product hi d.fits)
  where
    product : ℤ → ℤ
    product n = to_i32 (n *ℤ pos 1000)

    clamped : ℤ → ℤ → ℤ
    clamped highest lowest = Sensor.clamp_ℤ v lowest highest

-- A period of the framework that fits an int32_t reaches a sensor of the base class clamped to the
-- sensor's delays.
batch_clamps :
    (lo hi period : ℕ) (s : Sensor)
    → HasDelays lo hi s
    → period < 2147483648
    → (Sensor.batch (to_i32 (pos period)) s).2.sampling_period_ns
      ≡ pos (
          if ltb period (lo * 1000)
          then lo * 1000
          else if ltb (hi * 1000) period
          then hi * 1000
          else period)
batch_clamps lo hi period s d h =
    batch-period lo hi (to_i32 (pos period)) s d ∙ rw (to_i32-fits period h) (ground arith)

-- A longer period is narrowed to an int32_t on its way: between 2^31 and 2^32 nanoseconds (2.1 to
-- 4.3 seconds) it turns negative, and the sensor is set to its shortest period instead of its
-- longest.
batch_wraps :
    (lo hi period : ℕ) (s : Sensor)
    → HasDelays lo hi s
    → 2147483648 ≤ period
    → period < 4294967296
    → (Sensor.batch (to_i32 (pos period)) s).2.sampling_period_ns ≡ pos (lo * 1000)
batch_wraps lo hi period s d h k =
    batch-period lo hi (to_i32 (pos period)) s d ∙ rw (to_i32-wraps period h k) (ground arith)
  where
    to_i32-wraps :
        (n : ℕ) → 2147483648 ≤ n → n < 4294967296 → to_i32 (pos n) ≡ negsuc (4294967295 - n)
    to_i32-wraps n h k = ground arith
