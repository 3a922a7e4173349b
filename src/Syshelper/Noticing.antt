-- ===== src/Syshelper/Noticing.antt =====
-- syshelper/: how the thread of UdfpsHelper.cpp comes to its sleep for a touch, over every interleaving
-- in which no client calls.
use native.Mathlib.Decide.{dec_lt}
use android_device_realme_sa.Base.{
  Bool, List, [], ap, arith, false, inl, inr, refl, subst, suc, sym, true, ℕ, ◌++◌, ◌+◌, ◌∙◌, ◌∷◌,
  ◌≡◌, ◌≤◌, ◌⊎◌,
}
use android_device_realme_sa.Syshelper.Watchdog.{
  Event, Thread, Watch, awake, blocked, checking, committed, forcing, notify_all, run, run_thread,
  sleeping, step, tick, top, touch_down, touch_up, wakes_up,
}
use android_device_realme_sa.Syshelper.Timing.{
  AllQuiet, AllQuiet-append, run-append, run-ending, run-sleeping, run-up, step-due, step-early,
  thread_steps, thread_steps-append, ticks, watch,
}

-- The thread is at most `k` steps from its sleep for a touch that is down, or beyond.
abbrev IsOnItsWay : ℕ → ℕ → Thread → Type 0
IsOnItsWay k now top = 1 ≤ k
IsOnItsWay k now checking = 2 ≤ k
IsOnItsWay k now committed = ⊥
IsOnItsWay k now blocked = ⊥
IsOnItsWay k now awake = Unit
IsOnItsWay k now forcing = Unit
IsOnItsWay k now (sleeping u) = u ≤ now + 3

abbrev IsNoticing : ℕ → Watch → Type 0
IsNoticing k w = (w.down ≡ false) ⊎ ((w.down ≡ true) × IsOnItsWay k w.now w.thread)

-- The thread sleeps for three seconds at most.
abbrev pub IsTimely : Watch → Type 0
IsTimely w = (u : ℕ) → w.thread ≡ sleeping u → u ≤ w.now + 3

step-IsTimely : (e : Event) (w : Watch) → IsTimely w → IsTimely (step e w)
unfolding step
step-IsTimely touch_down w i = by_place w.thread i
  where
    by_place :
        (t : Thread)
        → ((u : ℕ) → t ≡ sleeping u → u ≤ w.now + 3)
        → (u : ℕ) → notify_all t ≡ sleeping u
        → u ≤ w.now + 3
    by_place t i u e = ground (arith, i u)
step-IsTimely touch_up w i = λ u e. ground (arith, i u)
step-IsTimely run_thread w i = λ u e. ground (arith, i u)
step-IsTimely tick w i = λ u e. omega (arith, i u e)
step-IsTimely wakes_up w i = λ u e. ground (arith, i u)

pub run-IsTimely : (es : List Event) (w : Watch) → IsTimely w → IsTimely (run es w)
unfolding run
run-IsTimely [] w i = i
run-IsTimely (e ∷ es) w i = run-IsTimely es (step e w) (step-IsTimely e w i)

step-IsNoticing :
    (k n : ℕ) (t : Thread)
    → IsOnItsWay (suc k) n t
    → IsNoticing k (step run_thread (watch true t n))
unfolding step
step-IsNoticing k n top i = inr (refl, omega arith)
step-IsNoticing k n checking i = inr (refl, omega arith)
step-IsNoticing k n committed i = elim i [ ]
step-IsNoticing k n blocked i = elim i [ ]
step-IsNoticing k n awake i = inr (refl, tt)
step-IsNoticing k n forcing i = inl refl
step-IsNoticing k n (sleeping u) i = elim (dec_lt n u) [
  | yes early ↦ subst (IsNoticing k) (sym (step-early true u n early)) (inr (refl, i))
  | no over ↦ subst (IsNoticing k) (sym (step-due true u n (omega arith))) (inr (refl, tt))
]

tick-IsOnItsWay : (k n : ℕ) (t : Thread) → IsOnItsWay k n t → IsOnItsWay k (n + 1) t
tick-IsOnItsWay k n top i = i
tick-IsOnItsWay k n checking i = i
tick-IsOnItsWay k n committed i = i
tick-IsOnItsWay k n blocked i = i
tick-IsOnItsWay k n awake i = i
tick-IsOnItsWay k n forcing i = i
tick-IsOnItsWay k n (sleeping u) i = omega arith

wakes-IsOnItsWay : (k n : ℕ) (t : Thread) → IsOnItsWay k n t → IsOnItsWay k n (notify_all t)
wakes-IsOnItsWay k n top i = i
wakes-IsOnItsWay k n checking i = i
wakes-IsOnItsWay k n committed i = i
wakes-IsOnItsWay k n blocked i = elim i [ ]
wakes-IsOnItsWay k n awake i = i
wakes-IsOnItsWay k n forcing i = i
wakes-IsOnItsWay k n (sleeping u) i = i

thread-IsNoticing :
    (k : ℕ) (w : Watch)
    → w.down ≡ true
    → IsOnItsWay (suc k) w.now w.thread
    → IsNoticing k (step run_thread w)
thread-IsNoticing k w e i =
    subst (λ b. IsNoticing k (step run_thread (watch b w.thread w.now))) (sym e)
      (step-IsNoticing k w.now w.thread i)

-- With as many steps of the thread as it needs, it comes to its sleep or beyond.
run-IsNoticing :
    (es : List Event) (w : Watch)
    → AllQuiet es
    → IsNoticing (thread_steps es) w
    → IsNoticing 0 (run es w)
unfolding run
run-IsNoticing es w q (inl off) = inl (run-up es w q off)
run-IsNoticing [] w q (inr i) = inr i
run-IsNoticing (run_thread ∷ es) w q (inr i) =
    run-IsNoticing es (step run_thread w) q.1 (thread-IsNoticing (thread_steps es) w i.0 i.1)
run-IsNoticing (tick ∷ es) w q (inr i) =
    run-IsNoticing es (step tick w) q.1
      (unfold step in inr (i.0, tick-IsOnItsWay (thread_steps es) w.now w.thread i.1))
run-IsNoticing (wakes_up ∷ es) w q (inr i) =
    run-IsNoticing es (step wakes_up w) q.1
      (unfold step in inr (i.0, wakes-IsOnItsWay (thread_steps es) w.now w.thread i.1))
run-IsNoticing (touch_down ∷ es) w q (inr i) = cc (q.0)
run-IsNoticing (touch_up ∷ es) w q (inr i) = cc (q.0)

-- The predicate of the wait was false, and the wait is about to begin.
abbrev pub is_committed : Thread → Bool
is_committed committed = true
is_committed _ = false

touch-IsNoticing :
    (w : Watch) → IsTimely w → is_committed w.thread ≡ false → IsNoticing 2 (step touch_down w)
unfolding step
touch-IsNoticing w i e = inr (refl, by_place w.thread i e)
  where
    by_place :
        (t : Thread)
        → ((u : ℕ) → t ≡ sleeping u → u ≤ w.now + 3)
        → is_committed t ≡ false
        → IsOnItsWay 2 w.now (notify_all t)
    by_place top i e = omega arith
    by_place checking i e = omega arith
    by_place committed i e = cc e
    by_place blocked i e = omega arith
    by_place awake i e = tt
    by_place forcing i e = tt
    by_place (sleeping u) i e = i u refl

more-IsNoticing : (j k : ℕ) (w : Watch) → j ≤ k → IsNoticing j w → IsNoticing k w
more-IsNoticing j k w h (inl off) = inl off
more-IsNoticing j k w h (inr (e, i)) = inr (e, by_place w.thread i)
  where
    by_place : (t : Thread) → IsOnItsWay j w.now t → IsOnItsWay k w.now t
    by_place top i = omega arith
    by_place checking i = omega arith
    by_place committed i = elim i [ ]
    by_place blocked i = elim i [ ]
    by_place awake i = i
    by_place forcing i = i
    by_place (sleeping u) i = i

-- From the sleep on.
asleep_ends :
    (fs gs : List Event) (d : Bool) (t : Thread) (n : ℕ)
    → IsOnItsWay 0 n t
    → AllQuiet fs
    → AllQuiet gs
    → 3 ≤ ticks fs
    → 3 ≤ thread_steps gs
    → (run (fs ++ gs) (watch d t n)).down ≡ false
asleep_ends fs gs d top n i q r late steps = absurd (omega arith)
asleep_ends fs gs d checking n i q r late steps = absurd (omega arith)
asleep_ends fs gs d committed n i q r late steps = elim i [ ]
asleep_ends fs gs d blocked n i q r late steps = elim i [ ]
asleep_ends fs gs d awake n i q r late steps =
    run-ending (fs ++ gs) d awake n (AllQuiet-append fs gs q r)
      (omega (arith, thread_steps-append fs gs))
asleep_ends fs gs d forcing n i q r late steps =
    run-ending (fs ++ gs) d forcing n (AllQuiet-append fs gs q r)
      (omega (arith, thread_steps-append fs gs))
asleep_ends fs gs d (sleeping u) n i q r late steps =
    run-sleeping fs gs d u n q r (omega arith) steps

-- A touch from which no notification is lost is ended.
pub touch_ends :
    (w : Watch) (es fs gs : List Event)
    → IsTimely w
    → is_committed w.thread ≡ false
    → AllQuiet es
    → AllQuiet fs
    → AllQuiet gs
    → 2 ≤ thread_steps es
    → 3 ≤ ticks fs
    → 3 ≤ thread_steps gs
    → (run (touch_down ∷ (es ++ (fs ++ gs))) w).down ≡ false
unfolding run
touch_ends w es fs gs i e q r s notices late steps =
    let v = step touch_down w in
    ap (λ (u : Watch). u.down) (run-append es (fs ++ gs) v)
    ∙ from (run es v) (
        run-IsNoticing es v q
          (more-IsNoticing 2 (thread_steps es) v notices (touch-IsNoticing w i e)))
  where
    from : (u : Watch) → IsNoticing 0 u → (run (fs ++ gs) u).down ≡ false
    from u (inl off) = run-up (fs ++ gs) u (AllQuiet-append fs gs r s) off
    from u (inr (h, k)) = asleep_ends fs gs u.down u.thread u.now k r s late steps
