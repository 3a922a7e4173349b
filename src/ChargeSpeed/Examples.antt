-- ===== src/ChargeSpeed/Examples.antt =====
-- chargespeed/ on a device with one node.
use android_device_realme_sa.Base.{List, [], arith, false, none, refl, some, true, ◌∷◌, ◌≡◌}
use android_device_realme_sa.Base.Int.{pos}
use android_device_realme_sa.ChargeSpeed.CoolDown.{
  Device, is_supported, on_receive, parse_int, power_connected, read_cool_down,
}
use android_device_realme_sa.ChargeSpeed.Histories.{Event, chooses, kernel_writes, last_choice, run}
use android_device_realme_sa.ChargeSpeed.Restore.{restored}

abbrev device : Device
device = record {
  nodes =
      record { exists = false; can_write = false; contents = [] }
      ∷ record { exists = true; can_write = true; contents = 48 ∷ [] }
      ∷ [];
  saved = none;
}

-- The user chooses `3`, a text that is no number fails, and the kernel clears the node.
abbrev cleared : List Event
cleared = chooses true (51 ∷ []) ∷ chooses true (120 ∷ []) ∷ kernel_writes 1 (48 ∷ []) ∷ []

cleared_reads : read_cool_down true (run cleared device) ≡ pos 0
unfolding run read_cool_down
cleared_reads = refl

restored_example :
    read_cool_down true (on_receive true (some power_connected) (run cleared device)) ≡ pos 3
unfolding last_choice parse_int
restored_example =
    restored cleared power_connected device refl (unfold is_supported in refl) (omega arith)
