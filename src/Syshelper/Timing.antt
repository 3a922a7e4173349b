-- ===== src/Syshelper/Timing.antt =====
-- syshelper/: the thread of UdfpsHelper.cpp over every interleaving in which no client calls.
use native.Mathlib.Decide.{dec_lt}
use android_device_realme_sa.Base.{
  All, Bool, List, [], ap, arith, false, refl, suc, true, ℕ, ◌++◌, ◌+◌, ◌<◌, ◌∙◌, ◌∷◌, ◌≡◌, ◌≤◌,
}
use android_device_realme_sa.Syshelper.Watchdog.{
  Event, Thread, Watch, advance, awake, blocked, checking, committed, forcing, run, run_thread,
  sleeping, step, tick, top, touch_down, touch_up, wakes_up,
}

-- The thread runs or wakes up by itself and time passes, and no client calls.
abbrev is_quiet : Event → Bool
is_quiet run_thread = true
is_quiet tick = true
is_quiet wakes_up = true
is_quiet _ = false

abbrev pub AllQuiet : List Event → Type 0
AllQuiet = All λ e. is_quiet e ≡ true

abbrev pub ticks : List Event → ℕ
ticks [] = 0
ticks (tick ∷ es) = suc (ticks es)
ticks (_ ∷ es) = ticks es

abbrev pub thread_steps : List Event → ℕ
thread_steps [] = 0
thread_steps (run_thread ∷ es) = suc (thread_steps es)
thread_steps (_ ∷ es) = thread_steps es

pub run-append : (es fs : List Event) (w : Watch) → run (es ++ fs) w ≡ run fs (run es w)
unfolding run
run-append [] fs w = refl
run-append (e ∷ es) fs w = run-append es fs (step e w)

-- How many steps of the thread are left before a touch is ended, once the sleep is over.
abbrev IsEnding : ℕ → ℕ → Thread → Type 0
IsEnding n now (sleeping u) = (u ≤ now) × (3 ≤ n)
IsEnding n now awake = 2 ≤ n
IsEnding n now forcing = 1 ≤ n
IsEnding n now _ = ⊥

-- Nobody calls, the touch is over and the thread is not about to sleep for a new one.
pub run-up : (es : List Event) (w : Watch) → AllQuiet es → w.down ≡ false → (run es w).down ≡ false
unfolding run step
run-up [] w q h = h
run-up (run_thread ∷ es) w q h = run-up es (step run_thread w) q.1 (step-up w.thread)
  where
    step-up : (t : Thread) → (advance t w).down ≡ false
    step-up top = h
    step-up checking = h
    step-up committed = h
    step-up blocked = h
    step-up awake = h
    step-up forcing = refl
    step-up (sleeping u) = h
run-up (tick ∷ es) w q h = run-up es (step tick w) q.1 h
run-up (wakes_up ∷ es) w q h = run-up es (step wakes_up w) q.1 h
run-up (touch_down ∷ es) w q h = cc (q.0)
run-up (touch_up ∷ es) w q h = cc (q.0)

abbrev pub watch : Bool → Thread → ℕ → Watch
watch d t n = record { down = d; thread = t; now = n }

-- The sleep is over, or it is not.
pub step-due :
    (d : Bool) (u n : ℕ) → u ≤ n → step run_thread (watch d (sleeping u) n) ≡ watch d awake n
unfolding step
step-due d u n h = ground arith

pub step-early :
    (d : Bool) (u n : ℕ) → n < u → step run_thread (watch d (sleeping u) n) ≡ watch d (sleeping u) n
unfolding step
step-early d u n h = ground arith

abbrev ends : List Event → Watch → Bool
ends es w = (run es w).down

pub run-ending :
    (es : List Event) (d : Bool) (t : Thread) (n : ℕ)
    → AllQuiet es
    → IsEnding (thread_steps es) n t
    → (run es (watch d t n)).down ≡ false
unfolding run step
run-ending [] d (sleeping u) n q h = absurd (omega arith)
run-ending [] d awake n q h = absurd (omega arith)
run-ending [] d forcing n q h = absurd (omega arith)
run-ending (run_thread ∷ es) d (sleeping u) n q h =
    ap (ends es) (step-due d u n h.0) ∙ run-ending es d awake n q.1 (omega arith)
run-ending (run_thread ∷ es) true awake n q h = run-ending es true forcing n q.1 (omega arith)
run-ending (run_thread ∷ es) false awake n q h = run-up es (watch false top n) q.1 refl
run-ending (run_thread ∷ es) d forcing n q h = run-up es (watch false top n) q.1 refl
run-ending (tick ∷ es) d (sleeping u) n q h =
    run-ending es d (sleeping u) (n + 1) q.1 (omega arith, h.1)
run-ending (tick ∷ es) d awake n q h = run-ending es d awake (n + 1) q.1 h
run-ending (tick ∷ es) d forcing n q h = run-ending es d forcing (n + 1) q.1 h
run-ending [] d top n q h = elim h [ ]
run-ending [] d checking n q h = elim h [ ]
run-ending [] d committed n q h = elim h [ ]
run-ending [] d blocked n q h = elim h [ ]
run-ending (run_thread ∷ es) d top n q h = elim h [ ]
run-ending (run_thread ∷ es) d checking n q h = elim h [ ]
run-ending (run_thread ∷ es) d committed n q h = elim h [ ]
run-ending (run_thread ∷ es) d blocked n q h = elim h [ ]
run-ending (tick ∷ es) d top n q h = elim h [ ]
run-ending (tick ∷ es) d checking n q h = elim h [ ]
run-ending (tick ∷ es) d committed n q h = elim h [ ]
run-ending (tick ∷ es) d blocked n q h = elim h [ ]
run-ending (wakes_up ∷ es) d (sleeping u) n q h = run-ending es d (sleeping u) n q.1 h
run-ending (wakes_up ∷ es) d awake n q h = run-ending es d awake n q.1 h
run-ending (wakes_up ∷ es) d forcing n q h = run-ending es d forcing n q.1 h
run-ending (wakes_up ∷ es) d top n q h = elim h [ ]
run-ending (wakes_up ∷ es) d checking n q h = elim h [ ]
run-ending (wakes_up ∷ es) d committed n q h = elim h [ ]
run-ending (wakes_up ∷ es) d blocked n q h = elim h [ ]
run-ending (touch_down ∷ es) d t n q h = cc (q.0)
run-ending (touch_up ∷ es) d t n q h = cc (q.0)

pub AllQuiet-append : (es fs : List Event) → AllQuiet es → AllQuiet fs → AllQuiet (es ++ fs)
AllQuiet-append [] fs q r = r
AllQuiet-append (e ∷ es) fs q r = (q.0, AllQuiet-append es fs q.1 r)

pub thread_steps-append :
    (es fs : List Event) → thread_steps (es ++ fs) ≡ thread_steps es + thread_steps fs
thread_steps-append [] fs = omega arith
thread_steps-append (touch_down ∷ es) fs = thread_steps-append es fs
thread_steps-append (touch_up ∷ es) fs = thread_steps-append es fs
thread_steps-append (run_thread ∷ es) fs = omega (arith, thread_steps-append es fs)
thread_steps-append (tick ∷ es) fs = thread_steps-append es fs
thread_steps-append (wakes_up ∷ es) fs = thread_steps-append es fs

pub run-sleeping :
    (es fs : List Event) (d : Bool) (u n : ℕ)
    → AllQuiet es
    → AllQuiet fs
    → u ≤ n + ticks es
    → 3 ≤ thread_steps fs
    → (run (es ++ fs) (watch d (sleeping u) n)).down ≡ false
unfolding run step
run-sleeping [] fs d u n q r late steps = run-ending fs d (sleeping u) n r (omega arith, steps)
run-sleeping (run_thread ∷ es) fs d u n q r late steps = elim (dec_lt n u) [
  | yes early ↦
      ap (ends (es ++ fs)) (step-early d u n early) ∙ run-sleeping es fs d u n q.1 r late steps
  | no over ↦
      ap (ends (es ++ fs)) (step-due d u n (omega arith))
      ∙ run-ending (es ++ fs) d awake n (AllQuiet-append es fs q.1 r)
          (omega (arith, thread_steps-append es fs))
]
run-sleeping (tick ∷ es) fs d u n q r late steps =
    run-sleeping es fs d u (n + 1) q.1 r (omega arith) steps
run-sleeping (wakes_up ∷ es) fs d u n q r late steps = run-sleeping es fs d u n q.1 r late steps
run-sleeping (touch_down ∷ es) fs d u n q r late steps = cc (q.0)
run-sleeping (touch_up ∷ es) fs d u n q r late steps = cc (q.0)

pub run-still_down :
    (es : List Event) (u n : ℕ)
    → AllQuiet es
    → n + ticks es < u
    → (run es (watch true (sleeping u) n)).down ≡ true
unfolding run step
run-still_down [] u n q h = refl
run-still_down (run_thread ∷ es) u n q h =
    ap (ends es) (step-early true u n (omega arith)) ∙ run-still_down es u n q.1 h
run-still_down (tick ∷ es) u n q h = run-still_down es u (n + 1) q.1 (omega arith)
run-still_down (wakes_up ∷ es) u n q h = run-still_down es u n q.1 h
run-still_down (touch_down ∷ es) u n q h = cc (q.0)
run-still_down (touch_up ∷ es) u n q h = cc (q.0)
