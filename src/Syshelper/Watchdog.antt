-- ===== src/Syshelper/Watchdog.antt =====
-- syshelper/UdfpsHelper.cpp: the thread that ends a touch after three seconds, run(), and its
-- interleavings with touchDown and touchUp.
--
-- touchDown and touchUp hold `fpdown_mutex_lock` and the thread waits with `run_mutex_lock`, so a
-- touch may fall between any two steps of the thread, also between the check of the wait's predicate
-- and the wait itself.
use android_device_realme_sa.Base.{Bool, List, [], false, if◌then◌else◌, leb, true, ℕ, ◌+◌, ◌∷◌}

-- `top`: about to test the touch state. `checking`: about to evaluate the predicate of the wait.
-- `committed`: the predicate was false, and the wait is about to begin. `blocked`: waiting for a
-- notification, or for a wake-up by itself. `sleeping u`: in sleep(3), up to the second `u`. `awake`: about to test the touch
-- state again. `forcing`: about to call touchUp.
pub data Thread : Type 0 where
  top checking committed blocked awake forcing : Thread
  sleeping : ℕ → Thread

-- `now` counts seconds.
pub record Watch : Type 0 where
  pub down : Bool
  pub thread : Thread
  pub now : ℕ

-- notify_all wakes a thread that waits, and no other.
abbrev pub notify_all : Thread → Thread
notify_all blocked = checking
notify_all top = top
notify_all checking = checking
notify_all committed = committed
notify_all awake = awake
notify_all forcing = forcing
notify_all (sleeping u) = sleeping u

unfoldable touch : Bool → Watch → Watch
touch is_down w = record w { down = is_down; thread = notify_all w.thread }

-- One step of run().
unfoldable pub advance : Thread → Watch → Watch
unfolding touch
advance top w = record w { thread = if w.down then sleeping (w.now + 3) else checking }
advance checking w = record w { thread = if w.down then top else committed }
advance committed w = record w { thread = blocked }
advance blocked w = w
advance (sleeping u) w = record w { thread = if leb u w.now then awake else sleeping u }
advance awake w = record w { thread = if w.down then forcing else top }
advance forcing w = record (touch false w) { thread = top }

-- `wakes_up`: a wait may end by itself, and then evaluates its predicate again.
pub data Event : Type 0 where
  touch_down touch_up run_thread tick wakes_up : Event

unfoldable pub step : Event → Watch → Watch
unfolding touch advance
step touch_down w = touch true w
step touch_up w = touch false w
step run_thread w = advance w.thread w
step tick w = record w { now = w.now + 1 }
step wakes_up w = record w { thread = notify_all w.thread }

unfoldable pub run : List Event → Watch → Watch
run [] w = w
run (e ∷ es) w = run es (step e w)

-- The thread starts with no touch.
abbrev pub started : Watch
started = record { down = false; thread = top; now = 0 }
