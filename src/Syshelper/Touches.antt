-- ===== src/Syshelper/Touches.antt =====
-- syshelper/: when the thread ends a touch, and when it does not.
use android_device_realme_sa.Base.{
  All, Bool, List, [], arith, false, inl, inr, refl, suc, true, zero, ℕ, ◌++◌, ◌+◌, ◌<◌, ◌∙◌, ◌∷◌,
  ◌≡◌, ◌⊎◌,
}
use android_device_realme_sa.Syshelper.Watchdog.{
  Event, Thread, Watch, blocked, committed, run, run_thread, sleeping, step, tick, top, touch_down,
  touch_up, wakes_up,
}
use android_device_realme_sa.Syshelper.Timing.{AllQuiet, run-append, run-still_down, ticks, watch}

-- The thread notices a touch.
abbrev pub noticed : List Event
noticed = touch_down ∷ run_thread ∷ run_thread ∷ []

run-noticed :
    (w : Watch) → w.thread ≡ blocked → run noticed w ≡ watch true (sleeping (w.now + 3)) w.now
unfolding run step
run-noticed w h = rw h

-- A touch that wakes the waiting thread is not ended early: as long as less than three seconds have
-- passed since and no client calls, the touch state is down.
pub touch_lasts :
    (w : Watch) (es : List Event)
    → w.thread ≡ blocked
    → AllQuiet es
    → ticks es < 3
    → (run (noticed ++ es) w).down ≡ true
touch_lasts w es h q early =
    rw (run-append noticed es w, run-noticed w h)
      (run-still_down es (w.now + 3) w.now q (omega arith))

-- The thread runs and time passes, no client calls, and no wait ends by itself.
abbrev is_unwoken : Event → Bool
is_unwoken run_thread = true
is_unwoken tick = true
is_unwoken _ = false

abbrev pub AllUnwoken : List Event → Type 0
AllUnwoken = All λ e. is_unwoken e ≡ true

run-lost :
    (es : List Event) (t : Thread) (n : ℕ)
    → (t ≡ committed) ⊎ (t ≡ blocked)
    → AllUnwoken es
    → (run es (watch true t n)).down ≡ true
unfolding run step
run-lost [] t n h q = refl
run-lost (run_thread ∷ es) t n (inl h) q = rw h (run-lost es blocked n (inr refl) q.1)
run-lost (run_thread ∷ es) t n (inr h) q = rw h (run-lost es blocked n (inr refl) q.1)
run-lost (tick ∷ es) t n h q = run-lost es t (n + 1) h q.1
run-lost (wakes_up ∷ es) t n h q = cc (q.0)
run-lost (touch_down ∷ es) t n h q = cc (q.0)
run-lost (touch_up ∷ es) t n h q = cc (q.0)

-- The notification of a touch that falls between the check of the wait's predicate and the wait is lost:
-- the touch state stays down, however much time passes and however often the thread runs, as long as
-- no client reports a touch or its end and the wait does not end by itself, which
-- condition_variable::wait may do but need not.
pub lost_wakeup :
    (w : Watch) (es : List Event)
    → w.thread ≡ committed
    → AllUnwoken es
    → (run (touch_down ∷ es) w).down ≡ true
unfolding run step
lost_wakeup w es h q = rw h (run-lost es committed w.now (inl refl) q)

abbrev pub seconds : ℕ → List Event
seconds zero = []
seconds (suc k) = tick ∷ seconds k

run-seconds :
    (k : ℕ) (d : Bool) (t : Thread) (n : ℕ) → run (seconds k) (watch d t n) ≡ watch d t (n + k)
unfolding run step
run-seconds zero d t n = ground arith
run-seconds (suc k) d t n = run-seconds k d t (n + 1) ∙ ground arith

abbrev pub wake : List Event
wake = run_thread ∷ run_thread ∷ run_thread ∷ []

run-wake : (u : ℕ) → run wake (watch true (sleeping u) u) ≡ watch false top u
unfolding run step
run-wake u = ground arith

-- A finger that is lifted and set down again while the thread still sleeps for the earlier touch is
-- forced up when that sleep ends, `k` seconds after the new touch, be it less than three.
early_touch_up :
    (w : Watch) (k : ℕ)
    → w.thread ≡ sleeping (w.now + k)
    → let v = run (touch_up ∷ touch_down ∷ seconds k ++ wake) w in
      (v.down ≡ false) × (v.now ≡ w.now + k)
early_touch_up w k h =
    rw
      (
        again,
        run-append (seconds k) wake _,
        run-seconds k true (sleeping (w.now + k)) w.now,
        run-wake (w.now + k),
      )
      (refl, refl)
  where
    again :
        run (touch_up ∷ touch_down ∷ seconds k ++ wake) w
        ≡ run (seconds k ++ wake) (watch true (sleeping (w.now + k)) w.now)
    again = unfold run step in rw h
