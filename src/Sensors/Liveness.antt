-- ===== src/Sensors/Liveness.antt =====
-- sensors/Sensor.cpp: presses at a UDFPS sensor, and the steps of run() that answer them.
use android_device_realme_sa.Base.{
  List, Option, [], ap, arith, false, refl, subst, suc, sym, true, zero, ℕ, ◌++◌, ◌+◌, ◌∷◌, ◌≡◌,
  ◌≢◌,
}
use android_device_realme_sa.Base.Int.{ℤ}
use android_device_realme_sa.Sensors.Types.{
  HalTypes, Post, Sensor, SensorInfo, Thread, dozing, exited, is_negative, polling, top, udfps,
  waiting,
}
use android_device_realme_sa.Sensors.Scan.{read_fp_state}
use android_device_realme_sa.Sensors.Sensor.{construct_udfps, is_wake_up_sensor}
use android_device_realme_sa.Sensors.Thread.{Clocks, PollResult, is_runnable, pollerr, pollpri}
use android_device_realme_sa.Sensors.Histories.{
  SensorEvent, activates, batches, flushes, injects, run, runs, sets_mode, spurious, step,
}
use android_device_realme_sa.Sensors.Presses.{press_event}
use android_device_realme_sa.Sensors.Wakeups.{IsAlert, is_active}

-- The thread of a UDFPS sensor ends only when it should stop, and has no timed wait.
pub record IsLive (s : Sensor) : Type 0 where
  pub alive : s.thread ≡ exited → s.stop_thread ≡ true
  pub untimed : s.thread ≢ dozing

-- poll() reports the node, and the node a press.
pub record SeesPress (r : PollResult) (s : Sensor) : Type 0 where
  pub polled : is_negative r.rc ≡ false
  pub asked : r.poll_revents ≡ pollerr + pollpri
  pub press : (read_fp_state r.fp_node s.screen_x s.screen_y).pressed ≡ true

-- The sensor is off, and its thread is not in poll().
pub record IsQuiet (s : Sensor) : Type 0 where
  pub kind_udfps : s.kind ≡ udfps
  pub off : s.is_enabled ≡ false
  pub elsewhere : s.thread ≢ polling

-- Steps of the thread, all with the same results of poll().
unfoldable pub turns : Clocks → PollResult → ℕ → List SensorEvent
turns c r zero = []
turns c r (suc n) = runs c r ∷ turns c r n

pub construct_udfps-IsLive :
    (types : HalTypes) (raw : SensorInfo) (h : ℤ) (ends : Option (ℤ × ℤ)) (fd : ℤ)
    → IsLive (construct_udfps types raw h ends fd)
unfolding construct_udfps
construct_udfps-IsLive types raw h ends fd = ground arith

module _ (types : HalTypes) where
  pub step-IsLive :
      (e : SensorEvent) (s : Sensor) → IsAlert s → IsLive s → IsLive (step types e s).1
  unfolding step
  step-IsLive (activates b) s a i = ground arith
  step-IsLive (sets_mode m) s a i = ground arith
  step-IsLive (batches p) s a i = ground arith
  step-IsLive flushes s a i = ground arith
  step-IsLive (injects e) s a i = ground arith
  step-IsLive (runs c r) s a i = ground arith
  step-IsLive spurious s a i = ground arith

  turn-IsQuiet :
      (c : Clocks) (r : PollResult) (s : Sensor)
      → IsQuiet s
      → ((step types (runs c r) s).0 ≡ []) × IsQuiet (step types (runs c r) s).1
  unfolding step
  turn-IsQuiet c r s q = ground arith

  turns-IsQuiet :
      (c : Clocks) (r : PollResult) (n : ℕ) (s : Sensor)
      → IsQuiet s
      → ((run types (turns c r n) s).0 ≡ []) × ((run types (turns c r n) s).1.is_enabled ≡ false)
  unfolding run turns
  turns-IsQuiet c r zero s q = (refl, q.off)
  turns-IsQuiet c r (suc n) s q =
      let (none_now, quiet) = turn-IsQuiet c r s q in
      let (none_later, off) = turns-IsQuiet c r n (step types (runs c r) s).1 quiet in
      (rw none_now none_later, off)

  -- The posts of a history, and the switch after it.
  abbrev Posted : Post → List Post × Sensor → Type 0
  Posted p o = (o.0 ≡ p ∷ []) × (o.1.is_enabled ≡ false)

  pub poll-press :
      (c : Clocks) (r : PollResult) (s : Sensor)
      → s.kind ≡ udfps
      → s.thread ≡ polling
      → SeesPress r s
      → ((step types (runs c r) s).0 ≡ press_event types r s ∷ [])
        × IsQuiet (step types (runs c r) s).1
  unfolding step press_event is_wake_up_sensor
  poll-press c r s k p e = ground arith

  polling-turns :
      (c : Clocks) (r : PollResult) (n : ℕ) (s : Sensor)
      → s.kind ≡ udfps
      → s.thread ≡ polling
      → SeesPress r s
      → Posted (press_event types r s) (run types (turns c r (suc n)) s)
  unfolding run turns
  polling-turns c r n s k p e =
      let (now, quiet) = poll-press c r s k p e in
      let (none_later, off) = turns-IsQuiet c r n (step types (runs c r) s).1 quiet in
      (rw (now, none_later) refl, off)

  -- A step that only moves the thread.
  move-turns :
      (c : Clocks) (r : PollResult) (n : ℕ) (s : Sensor) (k : Thread)
      → step types (runs c r) s ≡ ([], record s { thread = k })
      → run types (turns c r (suc n)) s ≡ run types (turns c r n) (record s { thread = k })
  unfolding run turns
  move-turns c r n s k e =
      ap
        (λ (o : List Post × Sensor).
          let (more, u) = run types (turns c r n) o.1 in (o.0 ++ more, u))
        e

  top-turns :
      (c : Clocks) (r : PollResult) (n : ℕ) (s : Sensor)
      → s.kind ≡ udfps
      → s.thread ≡ top
      → is_active s ≡ true
      → s.stop_thread ≡ false
      → SeesPress r s
      → Posted (press_event types r s) (run types (turns c r (suc (suc n))) s)
  unfolding press_event is_wake_up_sensor
  top-turns c r n s k p active goes e =
      subst (Posted (press_event types r s)) (sym (move-turns c r (suc n) s polling starts)) (
        polling-turns c r n (record s { thread = polling }) k refl
          (record { polled = e.polled; asked = e.asked; press = e.press }))
    where
      starts : step types (runs c r) s ≡ ([], record s { thread = polling })
      starts = unfold step in ground arith

  waiting-turns :
      (c : Clocks) (r : PollResult) (n : ℕ) (s : Sensor)
      → s.kind ≡ udfps
      → s.thread ≡ waiting true
      → is_active s ≡ true
      → s.stop_thread ≡ false
      → SeesPress r s
      → Posted (press_event types r s) (run types (turns c r (suc (suc (suc n)))) s)
  unfolding press_event is_wake_up_sensor
  waiting-turns c r n s k p active goes e =
      subst (Posted (press_event types r s)) (sym (move-turns c r (suc (suc n)) s top wakes)) (
        top-turns c r n (record s { thread = top }) k refl active goes
          (record { polled = e.polled; asked = e.asked; press = e.press }))
    where
      wakes : step types (runs c r) s ≡ ([], record s { thread = top })
      wakes = unfold step is_runnable in ground arith

  -- Three steps are enough wherever the thread stands, and more post nothing else.
  pub press-posts :
      (c : Clocks) (r : PollResult) (n : ℕ) (s : Sensor)
      → IsAlert s
      → IsLive s
      → is_active s ≡ true
      → s.stop_thread ≡ false
      → SeesPress r s
      → Posted (press_event types r s) (run types (turns c r (suc (suc (suc n)))) s)
  press-posts c r n s a l active goes e = by_place s.thread refl
    where
      by_place :
          (k : Thread)
          → s.thread ≡ k
          → Posted (press_event types r s) (run types (turns c r (suc (suc (suc n)))) s)
      by_place top p = top-turns c r (suc n) s a.is_udfps p active goes e
      by_place polling p = polling-turns c r (suc (suc n)) s a.is_udfps p e
      by_place (waiting true) p = waiting-turns c r n s a.is_udfps p active goes e
      by_place (waiting false) p = absurd (unfold is_runnable in ground (arith, a.alert p))
      by_place dozing p = absurd (l.untimed p)
      by_place exited p = cc (l.alive p)
