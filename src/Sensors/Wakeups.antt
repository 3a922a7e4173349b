-- ===== src/Sensors/Wakeups.antt =====
-- sensors/: the thread of the UDFPS sensor never misses a change that it waits for.
use android_device_realme_sa.Base.{Bool, List, Option, [], arith, false, true, ◌&&◌, ◌<◌, ◌∷◌, ◌≡◌}
use android_device_realme_sa.Base.Int.{ℤ}
use android_device_realme_sa.Sensors.Types.{
  HalTypes, OperationMode, Sensor, SensorInfo, is_negative, mode_eq, normal, polling, udfps,
  waiting,
}
use android_device_realme_sa.Sensors.Sensor.{activate, batch, construct_udfps, set_operation_mode}
use android_device_realme_sa.Sensors.Thread.{Clocks, PollResult, is_runnable, run_thread}
use android_device_realme_sa.Sensors.Histories.{
  SensorEvent, activates, batches, flushes, injects, run, runs, sets_mode, spurious, step,
}

abbrev pub is_active : Sensor → Bool
is_active s = s.is_enabled && mode_eq s.mode normal

-- `alert`: a thread that is blocked in wait() has nothing to do. `readable`: where the sensor has
-- been switched off or over while the thread polls, the pipe holds a byte, so that poll() returns.
pub record IsAlert (s : Sensor) : Type 0 where
  pub is_udfps : s.kind ≡ udfps
  pub alert : s.thread ≡ waiting false → is_runnable s ≡ false
  pub readable : s.thread ≡ polling → is_active s ≡ false → 0 < s.pipe
  pub opened : is_negative s.wait_pipe_write ≡ true → s.stop_thread ≡ true
  pub polls_open : s.thread ≡ polling → is_negative s.wait_pipe_write ≡ false

pub construct_udfps-IsAlert :
    (types : HalTypes) (raw : SensorInfo) (h : ℤ) (ends : Option (ℤ × ℤ)) (fd : ℤ)
    → IsAlert (construct_udfps types raw h ends fd)
unfolding construct_udfps is_runnable
construct_udfps-IsAlert types raw h ends fd = ground arith

pub activate-IsAlert : (b : Bool) (s : Sensor) → IsAlert s → IsAlert (activate b s).2
unfolding activate is_runnable
activate-IsAlert b s i = ground arith

set_operation_mode-IsAlert :
    (m : OperationMode) (s : Sensor) → IsAlert s → IsAlert (set_operation_mode m s).2
unfolding set_operation_mode is_runnable
set_operation_mode-IsAlert m s i = ground arith

batch-IsAlert : (p : ℤ) (s : Sensor) → IsAlert s → IsAlert (batch p s).2
unfolding batch
batch-IsAlert p s i = ground arith

module _ (types : HalTypes) where
  run_thread-IsAlert :
      (c : Clocks) (r : PollResult) (s : Sensor) → IsAlert s → IsAlert (run_thread types c r s).1
  unfolding run_thread is_runnable
  run_thread-IsAlert c r s i = ground arith

  pub step-IsAlert : (e : SensorEvent) (s : Sensor) → IsAlert s → IsAlert (step types e s).1
  unfolding step is_runnable
  step-IsAlert (activates b) s i = activate-IsAlert b s i
  step-IsAlert (sets_mode m) s i = set_operation_mode-IsAlert m s i
  step-IsAlert (batches p) s i = batch-IsAlert p s i
  step-IsAlert flushes s i = ground arith
  step-IsAlert (injects e) s i = ground arith
  step-IsAlert (runs c r) s i = run_thread-IsAlert c r s i
  step-IsAlert spurious s i = ground arith

  pub run-IsAlert : (es : List SensorEvent) (s : Sensor) → IsAlert s → IsAlert (run types es s).1
  unfolding run
  run-IsAlert [] s i = i
  run-IsAlert (e ∷ es) s i = run-IsAlert es (step types e s).1 (step-IsAlert e s i)

-- Over every history of the UDFPS sensor from its construction on: a thread that is blocked in its
-- wait has nothing to do, that is, the sensor is off or in injection mode, and it need not stop.
pub blocked_idle :
    (types : HalTypes) (raw : SensorInfo) (h : ℤ) (ends : Option (ℤ × ℤ)) (fd : ℤ)
    (es : List SensorEvent)
    → (run types es (construct_udfps types raw h ends fd)).1.thread ≡ waiting false
    → is_runnable (run types es (construct_udfps types raw h ends fd)).1 ≡ false
blocked_idle types raw h ends fd es =
    (run-IsAlert types es _ (construct_udfps-IsAlert types raw h ends fd)).alert

-- Over every history of the UDFPS sensor from its construction on: while the thread polls for a
-- sensor that was switched off or over to injection, the wait pipe holds a byte, so that poll()
-- returns.
pub poll_interrupted :
    (types : HalTypes) (raw : SensorInfo) (h : ℤ) (ends : Option (ℤ × ℤ)) (fd : ℤ)
    (es : List SensorEvent)
    → (run types es (construct_udfps types raw h ends fd)).1.thread ≡ polling
    → is_active (run types es (construct_udfps types raw h ends fd)).1 ≡ false
    → 0 < (run types es (construct_udfps types raw h ends fd)).1.pipe
poll_interrupted types raw h ends fd es =
    (run-IsAlert types es _ (construct_udfps-IsAlert types raw h ends fd)).readable
