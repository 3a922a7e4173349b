-- ===== src/Sensors/Sampling.antt =====
-- sensors/Sensor.cpp: the sampling of the base class.
use android_device_realme_sa.Base.{
  Bool, List, [], any, arith, false, inl, inr, length, refl, true, ℕ, ◌*◌, ◌+◌, ◌∷◌, ◌≡◌, ◌≢◌, ◌⊎◌,
}
use android_device_realme_sa.Base.Int.{pos, ℤ, ◌+ℤ◌, ◌≤ℤ◌}
use android_device_realme_sa.Sensors.Types.{
  HalTypes, Post, Sensor, Thread, dozing, exited, plain, polling, top, waiting,
}
use android_device_realme_sa.Sensors.Sensor.{activate, flush, inject_event, set_operation_mode}
use android_device_realme_sa.Sensors.Thread.{Clocks, PollResult, advance, loop, run_thread}
use android_device_realme_sa.Sensors.Histories.{
  SensorEvent, activates, batches, flushes, injects, run, runs, sets_mode, spurious, step,
}

abbrev is_batch : SensorEvent → Bool
is_batch (batches period) = true
is_batch _ = false

module _ (types : HalTypes) where
  sampled_by : SensorEvent → Sensor → ℕ
  sampled_by (runs c r) s = length (run_thread types c r s).0
  sampled_by _ s = 0

  -- How many times the thread posts over a history.
  pub samples : List SensorEvent → Sensor → ℕ
  samples [] s = 0
  samples (e ∷ es) s = sampled_by e s + samples es (step types e s).1

  pub record IsSampling (p : ℕ) (s : Sensor) : Type 0 where
    pub is_plain : s.kind ≡ plain
    pub never_polls : s.thread ≢ polling
    pub period : s.sampling_period_ns ≡ pos p

  -- Any event but batch keeps the period, and the last sample does not go back.
  step-last :
      (e : SensorEvent) (s : Sensor) (p : ℕ)
      → IsSampling p s
      → is_batch e ≡ false
      → IsSampling p (step types e s).1
        × (s.last_sample_time_ns ≤ℤ (step types e s).1.last_sample_time_ns)
  unfolding step activate set_operation_mode flush inject_event run_thread
  step-last (activates b) s p i h = ground arith
  step-last (sets_mode m) s p i h = ground arith
  step-last (batches period) s p i h = ground arith
  step-last flushes s p i h = ground arith
  step-last (injects e) s p i h = ground arith
  step-last (runs c r) s p i h = ground arith
  step-last spurious s p i h = ground arith

  -- A step posts nothing, or once and then a period or more after the last sample.
  Sampled : ℕ → Sensor → List Post × Sensor → Type 0
  Sampled p s (posts, t) =
      ((length posts ≡ 0) × (s.last_sample_time_ns ≤ℤ t.last_sample_time_ns))
      ⊎ ((length posts ≡ 1) × (pos p +ℤ s.last_sample_time_ns ≤ℤ t.last_sample_time_ns))

  loop-Sampled : (c : Clocks) (s : Sensor) (p : ℕ) → IsSampling p s → Sampled p s (loop types c s)
  unfolding Sampled loop
  loop-Sampled c s p i = ground arith

  advance-Sampled :
      (k : Thread) (c : Clocks) (r : PollResult) (s : Sensor) (p : ℕ)
      → IsSampling p s
      → k ≢ polling
      → Sampled p s (advance types k c r s)
  unfolding Sampled advance
  advance-Sampled top c r s p i h = loop-Sampled c s p i
  advance-Sampled dozing c r s p i h = ground arith
  advance-Sampled polling c r s p i h = elim (h refl) [ ]
  advance-Sampled exited c r s p i h = ground arith
  advance-Sampled (waiting true) c r s p i h = ground arith
  advance-Sampled (waiting false) c r s p i h = ground arith

  counted :
      (n p : ℕ) (x y : ℤ)
      → ((n ≡ 0) × (x ≤ℤ y)) ⊎ ((n ≡ 1) × (pos p +ℤ x ≤ℤ y))
      → pos (n * p) +ℤ x ≤ℤ y
  counted n p x y (inl (e, h)) = rw e (ground arith)
  counted n p x y (inr (e, h)) = rw e (ground arith)

  step-bound :
      (e : SensorEvent) (s : Sensor) (p : ℕ)
      → IsSampling p s
      → is_batch e ≡ false
      → pos (sampled_by e s * p) +ℤ s.last_sample_time_ns ≤ℤ (step types e s).1.last_sample_time_ns
  unfolding sampled_by step run_thread Sampled
  step-bound (runs c r) s p i h = counted _ p _ _ (advance-Sampled s.thread c r s p i i.never_polls)
  step-bound (batches period) s p i h = cc
  step-bound (activates b) s p i h =
      counted 0 p _ _ (inl (refl, (step-last (activates b) s p i h).1))
  step-bound (sets_mode m) s p i h =
      counted 0 p _ _ (inl (refl, (step-last (sets_mode m) s p i h).1))
  step-bound flushes s p i h = counted 0 p _ _ (inl (refl, (step-last flushes s p i h).1))
  step-bound (injects e) s p i h = counted 0 p _ _ (inl (refl, (step-last (injects e) s p i h).1))
  step-bound spurious s p i h = counted 0 p _ _ (inl (refl, (step-last spurious s p i h).1))

  later_samples :
      (a b p : ℕ) (x y z : ℤ)
      → pos (a * p) +ℤ x ≤ℤ y
      → pos (b * p) +ℤ y ≤ℤ z
      → pos ((a + b) * p) +ℤ x ≤ℤ z
  later_samples a b p x y z h k = grind arith

  -- A sensor of the base class does not sample faster than its period: over every history without
  -- batch, the time of the last sample is later than the one before the history by at least as many
  -- periods as the thread has posted samples.
  pub sampling_rate :
      (es : List SensorEvent) (s : Sensor) (p : ℕ)
      → IsSampling p s
      → any is_batch es ≡ false
      → pos (samples es s * p) +ℤ s.last_sample_time_ns ≤ℤ (run types es s).1.last_sample_time_ns
  unfolding samples run
  sampling_rate [] s p i h = ground arith
  sampling_rate (e ∷ es) s p i h =
      let quiet : is_batch e ≡ false = ground arith in
      let rest : any is_batch es ≡ false = ground arith in
      later_samples (sampled_by e s) (samples es (step types e s).1) p _ _ _
        (step-bound e s p i quiet)
        (sampling_rate es (step types e s).1 p (step-last e s p i quiet).0 rest)
