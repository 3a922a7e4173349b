-- ===== src/Sensors/Histories.antt =====
-- sensors/: histories of one sensor, the methods and the thread's steps in any order.
use android_device_realme_sa.Base.{Bool, List, [], true, ◌++◌, ◌∷◌}
use android_device_realme_sa.Base.Int.{ℤ}
use android_device_realme_sa.Sensors.Types.{
  Event, HalTypes, OperationMode, Post, Sensor, Thread, dozing, exited, polling, top, waiting,
}
use android_device_realme_sa.Sensors.Sensor.{
  activate, batch, flush, inject_event, set_operation_mode,
}
use android_device_realme_sa.Sensors.Thread.{Clocks, PollResult, run_thread}

-- `spurious`: a wait may also end by itself.
pub data SensorEvent : Type 0 where
  activates : Bool → SensorEvent
  sets_mode : OperationMode → SensorEvent
  batches : ℤ → SensorEvent
  flushes : SensorEvent
  injects : Event → SensorEvent
  runs : Clocks → PollResult → SensorEvent
  spurious : SensorEvent

abbrev wake_up_waiting : Thread → Thread
wake_up_waiting (waiting w) = waiting true
wake_up_waiting top = top
wake_up_waiting dozing = dozing
wake_up_waiting polling = polling
wake_up_waiting exited = exited

module _ (types : HalTypes) where
  unfoldable pub step : SensorEvent → Sensor → List Post × Sensor
  unfolding activate set_operation_mode batch flush inject_event run_thread
  step (activates enable) s = ([], (activate enable s).2)
  step (sets_mode mode) s = ([], (set_operation_mode mode s).2)
  step (batches period) s = ([], (batch period s).2)
  step flushes s = let (result, posts, t) = flush types s in (posts, t)
  step (injects event) s = let (result, posts, t) = inject_event types event s in (posts, t)
  step (runs clocks result) s = run_thread types clocks result s
  step spurious s = ([], record s { thread = wake_up_waiting s.thread })

  -- The posts of a history, oldest first.
  unfoldable pub run : List SensorEvent → Sensor → List Post × Sensor
  run [] s = ([], s)
  run (e ∷ es) s = let (posts, t) = step e s in let (more, u) = run es t in (posts ++ more, u)
