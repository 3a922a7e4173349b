-- ===== src/Ifaa/Examples.antt =====
-- ifaamanager/ on small inputs.
use android_device_realme_sa.Base.{List, Option, [], none, refl, some, true, ℕ, ◌∷◌, ◌≡◌}
use android_device_realme_sa.Base.Int.{negsuc, pos, ℤ}
use android_device_realme_sa.Ifaa.Manager.{bytes_to_hex_string, get_id_list}
use android_device_realme_sa.Ifaa.Ids.{get_id_list-last}
use android_device_realme_sa.Ifaa.Binding.{
  Event, connects, dies, disconnects, gets_instance, process_cmd_v2, returned, run, unused,
}
use android_device_realme_sa.Ifaa.Service.{bindings_in, run-commands}

-- Three fingerprints, the last with id 9.
get_id_list-last_example :
    get_id_list (some (some (some (pos 5) ∷ none ∷ some (pos 9) ∷ []))) (pos 1)
    ≡ some (pos 5 ∷ pos 0 ∷ pos 0 ∷ [])
get_id_list-last_example = get_id_list-last (some (pos 5) ∷ none ∷ []) (some (pos 9))

hex_of_two : bytes_to_hex_string (some (pos 10 ∷ negsuc 0 ∷ [])) ≡ some (48 ∷ 97 ∷ 102 ∷ 102 ∷ [])
unfolding bytes_to_hex_string
hex_of_two = refl

-- Connected to the binder 7, which dies and is disconnected; a second instance is asked for.
abbrev lost_service : List Event
lost_service =
    disconnects
    ∷ gets_instance (some 1)
    ∷ connects (some 7)
    ∷ dies
    ∷ disconnects
    ∷ gets_instance (some 2)
    ∷ []

-- A binder that answers with the command itself.
abbrev echo : ℕ → List ℤ → Option (List ℤ)
echo binder data_bytes = some data_bytes

lost_service-run : bindings_in (run 30 (λ _. true) (λ _. none) lost_service unused).calls ≡ 2
unfolding run
lost_service-run = refl

run-commands_example :
    let s = run 30 (λ _. true) (λ _. none) lost_service unused in
    (process_cmd_v2 echo (pos 3 ∷ []) s ≡ returned (some (pos 3 ∷ []))) × (bindings_in s.calls ≡ 2)
run-commands_example =
    run-commands 30 (λ _. true) (λ _. none) echo (pos 3 ∷ []) lost_service refl
      (tt, (tt, (tt, (tt, (tt, (tt, tt))))))
