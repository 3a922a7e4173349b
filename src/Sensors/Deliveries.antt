-- ===== src/Sensors/Deliveries.antt =====
-- sensors/: what reaches the HAL proxy from the sub-HAL.
use android_device_realme_sa.Base.{
  All, Bool, Bool-cases, List, Option, Option-cases, [], ap, arith, inl, inr, is_some, refl, some,
  subst, suc, sym, true, zero, ℕ, ◌+◌, ◌==◌, ◌∙◌, ◌∷◌, ◌≡◌, ◌⊎◌,
}
use android_device_realme_sa.Base.Int.{pos, ℤ, ◌+ℤ◌}
use android_device_realme_sa.Sensors.Sensor
use android_device_realme_sa.Sensors.Types.{
  Event, HalTypes, IsDocumented, Post, Result, Sensor, SensorInfo, Thread, dozing, exited,
  is_negative, polling, screen, top, waiting,
}
use android_device_realme_sa.Sensors.Thread.{Clocks, PollResult, pollerr, pollpri, run_thread}
use android_device_realme_sa.Sensors.SubHal
use android_device_realme_sa.Sensors.SubHal.{Delivery, SensorsSubHal}
use android_device_realme_sa.Sensors.Histories
use android_device_realme_sa.Sensors.Histories.{
  SensorEvent, activates, batches, flushes, injects, runs, sets_mode, spurious,
}
use android_device_realme_sa.Sensors.Reachable
use android_device_realme_sa.Sensors.Reachable.{Reach, Step}
use android_device_realme_sa.Sensors.OneShot.{IsUdfps, construct_udfps-IsUdfps, step-IsUdfps}
use android_device_realme_sa.Sensors.Presses.{construct_udfps-wakes, press_event, wake_up-info}
use android_device_realme_sa.Sensors.Liveness.{SeesPress, poll-press}
use android_device_realme_sa.Sensors.Scan.{read_fp_state}
use android_device_realme_sa.Base.Floats.{to_float}
use android_device_realme_sa.Sensors.EndToEnd.{run_turns}
use android_device_realme_sa.Sensors.Lifting.{AllSensors, Reach-All, find-P}

-- The event for the node's line that a poll() led to; `x` and `y` are the coordinates before.
abbrev pub press_of : SensorInfo → PollResult → ℤ → ℤ → Event
press_of info r x y =
    let fp = read_fp_state r.fp_node x y in
    record {
      sensor_handle = info.sensor_handle;
      sensor_type = info.sensor_type;
      timestamp = some r.clocks.elapsed_realtime_nano;
      payload = screen (to_float fp.screen_x) (to_float fp.screen_y);
    }

-- One event, under a wake lock, for a poll() that reported the node when this showed a press.
abbrev pub IsPressOf : SensorInfo → PollResult → List Event → Bool → Type 0
IsPressOf info r events wakeup =
    (x : ℤ) × (y : ℤ) × (r.poll_revents ≡ pollerr + pollpri)
    × ((read_fp_state r.fp_node x y).pressed ≡ true)
    × (wakeup ≡ true)
    × (events ≡ press_of info r x y ∷ [])

-- One of the results of poll() that were seen.
abbrev pub IsSeen : (PollResult → Type 0) → SensorInfo → List Event → Bool → Type 0
IsSeen Saw info events wakeup = (r : PollResult) × Saw r × IsPressOf info r events wakeup

-- What a step, and all the steps to a state, have read.
abbrev pub StepPolled :
    {types : HalTypes} {s t : SensorsSubHal} → Step types s t → PollResult → Type 0
StepPolled (Reachable.runs h c r e) q = r ≡ q
StepPolled _ q = ⊥

abbrev pub Polled : {types : HalTypes} {s t : SensorsSubHal} → Reach types s t → PollResult → Type 0
Polled Reachable.here q = ⊥
Polled (Reachable.next k st) q = StepPolled st q ⊎ Polled k q

module _ (types : HalTypes) (info : SensorInfo) where
  abbrev IsWaking : Sensor → Type 0
  IsWaking s = IsUdfps types info s × (Sensor.is_wake_up_sensor types s ≡ true)

  pub step-IsWaking :
      (e : SensorEvent) (s : Sensor) → IsWaking s → IsWaking (Histories.step types e s).1
  step-IsWaking e s (i, w) =
      let j = step-IsUdfps types info e s i in
      (j, wake_up-info types _ s (j.same_info ∙ sym i.same_info) ∙ w)

  abbrev AllWaking : SensorsSubHal → Type 0
  AllWaking s = AllSensors types IsWaking step-IsWaking s.sensors

module _ (types : HalTypes) (info : SensorInfo) (Saw : PollResult → Type 0) where
  abbrev AllDelivered : SensorsSubHal → Type 0
  AllDelivered s = All (λ d. IsSeen Saw info d.events d.wakeup) s.posted

  abbrev AllSeen : List Post → Type 0
  AllSeen = All λ p. IsSeen Saw info p.events p.wakeup

  -- What an event of one sensor reads.
  abbrev Reads : SensorEvent → Type 0
  Reads (runs c r) = Saw r
  Reads _ = Unit

  press-IsSeen :
      (r : PollResult) (s : Sensor)
      → IsWaking types info s
      → SeesPress r s
      → Saw r
      → AllSeen (press_event types r s ∷ [])
  unfolding press_event
  press-IsSeen r s (i, w) e k =
      let event = ap (λ n. press_of n r s.screen_x s.screen_y ∷ []) i.same_info in
      ((r, k, (s.screen_x, s.screen_y, e.asked, e.press, w, event)), tt)

  -- A step of the thread in poll().
  poll-AllSeen :
      (c : Clocks) (r : PollResult) (s : Sensor)
      → IsWaking types info s
      → s.thread ≡ polling
      → Saw r
      → AllSeen (Histories.step types (runs c r) s).0
  poll-AllSeen c r s w p k = elim (Bool-cases (is_negative r.rc)) [
    | inl failed ↦
        subst AllSeen {x = []} (unfold Histories.step in ground (arith, p, w.0.is_udfps)) tt
    | inr polled ↦ elim (Bool-cases (r.poll_revents == pollerr + pollpri)) [
      | inr unasked ↦
          subst AllSeen {x = []} (unfold Histories.step in ground (arith, p, w.0.is_udfps)) tt
      | inl asked ↦ elim (Bool-cases (read_fp_state r.fp_node s.screen_x s.screen_y).pressed) [
        | inr released ↦
            subst AllSeen {x = []} (unfold Histories.step in ground (arith, p, w.0.is_udfps)) tt
        | inl press ↦
            let seen : SeesPress r s = record {
              polled = polled;
              asked = ground (arith, asked);
              press = press;
            } in
            subst AllSeen (sym (poll-press types c r s w.0.is_udfps p seen).0)
              (press-IsSeen r s w seen k)
      ]
    ]
  ]

  nothing_posted : (ps : List Post) → ps ≡ [] → AllSeen ps
  nothing_posted ps e = subst AllSeen {x = []} {y = ps} (sym e) tt

  run-AllSeen :
      (c : Clocks) (r : PollResult) (s : Sensor)
      → IsWaking types info s
      → Saw r
      → AllSeen (Histories.step types (runs c r) s).0
  run-AllSeen c r s w k = by_place s.thread refl
    where
      by_place : (t : Thread) → s.thread ≡ t → AllSeen (Histories.step types (runs c r) s).0
      by_place polling p = poll-AllSeen c r s w p k
      by_place top p = nothing_posted _ (unfold Histories.step in ground (arith, p, w.0.is_udfps))
      by_place dozing p =
          nothing_posted _ (unfold Histories.step in ground (arith, p, w.0.is_udfps))
      by_place exited p =
          nothing_posted _ (unfold Histories.step in ground (arith, p, w.0.is_udfps))
      by_place (waiting b) p =
          nothing_posted _ (unfold Histories.step in ground (arith, p, w.0.is_udfps))

  step-AllSeen :
      (e : SensorEvent) (s : Sensor)
      → IsWaking types info s
      → Reads e
      → AllSeen (Histories.step types e s).0
  unfolding Histories.step
  step-AllSeen (activates b) s w k = tt
  step-AllSeen (sets_mode m) s w k = tt
  step-AllSeen (batches p) s w k = tt
  step-AllSeen flushes s (i, w) k = subst AllSeen {x = []} (ground arith) tt
  step-AllSeen (injects e) s (i, w) k = subst AllSeen {x = []} (ground arith) tt
  step-AllSeen (runs c r) s w k = run-AllSeen c r s w k
  step-AllSeen spurious s w k = tt

  find-posts :
      (e : SensorEvent) (h : ℤ) (s : SensorsSubHal) {u : Sensor}
      → SubHal.find h s.sensors ≡ some u
      → AllWaking types info s
      → Reads e
      → AllSeen (Histories.step types e u).0
  find-posts e h s {u} found a k =
      step-AllSeen e u
        (find-P types (IsWaking types info) (step-IsWaking types info) h s.sensors found a) k

  post_all-AllDelivered :
      (ps : List Post) (s : SensorsSubHal) {t : SensorsSubHal}
      → SubHal.post_all ps s ≡ some t
      → AllSeen ps
      → AllDelivered s
      → AllDelivered t
  unfolding SubHal.post_all
  post_all-AllDelivered [] s {t} e k a = subst AllDelivered {x = s} {y = t} (cc e) a
  post_all-AllDelivered (p ∷ ps) s e k a = elim (Option-cases s.callback) [
    | inl missing ↦ cc (rw (missing, SubHal.post_all) at e)
    | inr (proxy, there) ↦
        post_all-AllDelivered ps
          (record s {
            posted = record { proxy = proxy; events = p.events; wakeup = p.wakeup } ∷ s.posted;
          })
          (rw (there, SubHal.post_all) at e) k.1 (k.0, a)
  ]

  flush-AllDelivered :
      (h : ℤ) (s : SensorsSubHal) {r : Result} {t : SensorsSubHal}
      → SubHal.flush types h s ≡ some (r, t)
      → AllWaking types info s
      → AllDelivered s
      → AllDelivered t
  unfolding SubHal.flush Histories.step
  flush-AllDelivered h s {r} {t} e w a = elim (Option-cases (SubHal.find h s.sensors)) [
    | inl missing ↦ subst AllDelivered {x = s} {y = t} (ground (arith, missing)) a
    | inr (u, found) ↦
        let (result, posts, u') = Sensor.flush types u in
        post_all-AllDelivered posts _
          (Reachable.with_result-some result _ (rw (found, SubHal.flush) at e))
          (find-posts flushes h s found w tt) a
  ]

  inject-AllDelivered :
      (v : Event) (s : SensorsSubHal) {r : Result} {t : SensorsSubHal}
      → SubHal.inject_sensor_data_2_1 types v s ≡ some (r, t)
      → AllWaking types info s
      → AllDelivered s
      → AllDelivered t
  unfolding SubHal.inject_sensor_data_2_1 Histories.step
  inject-AllDelivered v s {r} {t} e w a =
      elim (Option-cases (SubHal.find v.sensor_handle s.sensors)) [
        | inl missing ↦ subst AllDelivered {x = s} {y = t} (ground (arith, missing)) a
        | inr (u, found) ↦
            let (result, posts, u') = Sensor.inject_event types v u in
            post_all-AllDelivered posts _
              (Reachable.with_result-some result _ (rw (found, SubHal.inject_sensor_data_2_1) at e))
              (find-posts (injects v) v.sensor_handle s found w tt) a
      ]

  run_sensor-AllDelivered :
      (h : ℤ) (c : Clocks) (r : PollResult) (s : SensorsSubHal) {t : SensorsSubHal}
      → SubHal.run_sensor types h c r s ≡ some t
      → AllWaking types info s
      → Saw r
      → AllDelivered s
      → AllDelivered t
  unfolding SubHal.run_sensor Histories.step
  run_sensor-AllDelivered h c r s {t} e w k a = elim (Option-cases (SubHal.find h s.sensors)) [
    | inl missing ↦ subst AllDelivered {x = s} {y = t} (ground (arith, missing)) a
    | inr (u, found) ↦
        let (posts, u') = run_thread types c r u in
        post_all-AllDelivered posts _ (rw (found, SubHal.run_sensor) at e)
          (find-posts (runs c r) h s found w k) a
  ]

  Step-AllDelivered :
      {s t : SensorsSubHal} (st : Step types s t)
      → ((r : PollResult) → StepPolled st r → Saw r)
      → AllWaking types info s
      → AllDelivered s
      → AllDelivered t
  unfolding SubHal.initialize SubHal.set_operation_mode SubHal.activate SubHal.batch
  Step-AllDelivered (Reachable.initializes proxy) k w a = a
  Step-AllDelivered (Reachable.sets_mode mode) k w a = a
  Step-AllDelivered {s} (Reachable.activates h b) k w a =
      elim (Bool-cases (is_some (SubHal.find h s.sensors))) [
        | inl there ↦ rw there a
        | inr missing ↦ rw missing a
      ]
  Step-AllDelivered {s} (Reachable.batches h p l) k w a =
      elim (Bool-cases (is_some (SubHal.find h s.sensors))) [
        | inl there ↦ rw there a
        | inr missing ↦ rw missing a
      ]
  Step-AllDelivered {s} (Reachable.flushes h e) k w a = flush-AllDelivered h s e w a
  Step-AllDelivered {s} (Reachable.injects v e) k w a = inject-AllDelivered v s e w a
  Step-AllDelivered {s} (Reachable.runs h c r e) k w a =
      run_sensor-AllDelivered h c r s e w (k r refl) a

-- Turns of a thread are steps of the sub-HAL.
pub run_turns-Reach :
    (types : HalTypes) (h : ℤ) (c : Clocks) (r : PollResult) (n : ℕ) {s t u : SensorsSubHal}
    → Reach types s t
    → run_turns types h c r n t ≡ some u
    → Reach types s u
unfolding run_turns
run_turns-Reach types h c r zero {s} {t} {u} k e = subst (Reach types s) {x = t} {y = u} (cc e) k
run_turns-Reach types h c r (suc n) {s} {t} k e =
    elim (Option-cases (SubHal.run_sensor types h c r t)) [
      | inl failed ↦ cc (rw (failed, run_turns) at e)
      | inr (v, ran) ↦
          run_turns-Reach types h c r n (Reachable.next k (Reachable.runs h c r ran))
            (rw (ran, run_turns) at e)
    ]

IsSeen-more :
    (S T : PollResult → Type 0) (info : SensorInfo) (ds : List Delivery)
    → ((r : PollResult) → S r → T r)
    → All (λ d. IsSeen S info d.events d.wakeup) ds
    → All (λ d. IsSeen T info d.events d.wakeup) ds
IsSeen-more S T info [] f a = tt
IsSeen-more S T info (d ∷ ds) f a = ((a.0.0, f a.0.0 a.0.1, a.0.2), IsSeen-more S T info ds f a.1)

Reach-AllDelivered :
    (types : HalTypes) (info : SensorInfo) {s t : SensorsSubHal} (k : Reach types s t)
    → AllWaking types info s
    → s.posted ≡ []
    → All (λ d. IsSeen (Polled k) info d.events d.wakeup) t.posted
Reach-AllDelivered types info Reachable.here w e =
    subst (All λ d. IsSeen (λ _. ⊥) info d.events d.wakeup) (sym e) tt
Reach-AllDelivered types info (Reachable.next {t} k st) w e =
    Step-AllDelivered types info (Polled (Reachable.next k st)) st (λ r p. inl p)
      (Reach-All types (IsWaking types info) (step-IsWaking types info) k w)
      (IsSeen-more (Polled k) (Polled (Reachable.next k st)) info t.posted (λ r p. inr p)
        (Reach-AllDelivered types info k w e))

-- In every reachable state of the sub-HAL, each call that reached a HAL proxy handed over, under a wake
-- lock, a single event: for one of the results that poll() has given on the way, which reported the
-- node when its line showed a press; with handle 1, the private type, the time of that reading and
-- the coordinates of that line as floats, if the flag bits are the documented ones.
pub posted-IsSeen :
    (types : HalTypes) (raw : SensorInfo) (ends : Option (ℤ × ℤ)) (fd : ℤ) {s : SensorsSubHal}
    (k : Reach types (SubHal.construct types raw ends fd) s)
    → IsDocumented types
    → let info = record raw {
      sensor_handle = pos 1;
      sensor_type = types.device_private_base +ℤ pos 1;
    } in
      All (λ d. IsSeen (Polled k) info d.events d.wakeup) s.posted
posted-IsSeen types raw ends fd k doc =
    unfold SubHal.construct Sensor.construct_udfps in
    Reach-AllDelivered types _ k
      (
        (
          construct_udfps-IsUdfps types raw (pos 1) ends fd doc,
          construct_udfps-wakes types raw (pos 1) ends fd doc,
        ),
        tt,
      )
      refl
