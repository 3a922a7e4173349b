-- ===== src/ChargeSpeed/Histories.antt =====
-- chargespeed/: histories of choices, broadcasts and writes of the kernel to the nodes.
use android_device_realme_sa.Base.{Bool, List, Option, [], none, some, ℕ, ◌∷◌}
use android_device_realme_sa.Base.Int.{ℤ}
use android_device_realme_sa.ChargeSpeed.CoolDown.{
  Action, Device, on_preference_change, on_receive, parse_int, put_text,
}

pub data Event : Type 0 where
  chooses : Bool → List ℕ → Event
  broadcast : Bool → Option Action → Event
  kernel_writes : ℕ → List ℕ → Event

unfoldable pub step : Event → Device → Device
unfolding on_preference_change on_receive
step (chooses writable new_value) d = (on_preference_change writable new_value d).1
step (broadcast writable action) d = on_receive writable action d
step (kernel_writes i text) d = record d { nodes = put_text i text d.nodes }

unfoldable pub run : List Event → Device → Device
unfolding step
run [] d = d
run (e ∷ es) d = run es (step e d)

-- The last choice that is a number, or what was chosen before the history.
abbrev pub choice : Option ℤ → Option ℤ → Option ℤ
choice none old = old
choice (some level) old = some level

unfoldable pub last_choice : List Event → Option ℤ → Option ℤ
last_choice [] old = old
last_choice (chooses writable new_value ∷ es) old =
    last_choice es (choice (parse_int new_value) old)
last_choice (broadcast writable action ∷ es) old = last_choice es old
last_choice (kernel_writes i text ∷ es) old = last_choice es old
