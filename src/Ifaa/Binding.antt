-- ===== src/Ifaa/Binding.antt =====
-- ifaamanager/lib/org/ifaa/android/manager/IFAAManagerImpl.java: the binding to the IFAA service, and
-- the methods that need what it sets up.
--
-- Contexts, binders and the framework's managers are numbers, and `none` is null. The calls that
-- leave the class are kept, newest first. A method ends with its value or with a NullPointerException.
use android_device_realme_sa.Base.{
  Bool, List, Option, [], false, if◌then◌else◌, leb, map_option, none, some, true, ℕ, ◌∷◌,
}
use android_device_realme_sa.Base.Int.{ℤ}
use android_device_realme_sa.Ifaa.Manager

pub data Call : Type 0 where
  binds_service links_to_death unlinks_to_death : ℕ → Call

-- The static fields of IFAAManagerImpl.
pub record Binding : Type 0 where
  pub instance_made : Bool
  pub context : Option ℕ
  pub service : Option ℕ
  pub fingerprint_manager : Option ℕ
  pub keyguard_manager : Option ℕ
  pub calls : List Call

abbrev pub unused : Binding
unused = record {
  instance_made = false;
  context = none;
  service = none;
  fingerprint_manager = none;
  keyguard_manager = none;
  calls = [];
}

pub data Answer (A : Type 0) : Type 0 where
  null_pointer : Answer A
  returned : A → Answer A

abbrev call : Call → Binding → Binding
call c s = record s { calls = c ∷ s.calls }

-- A failed bindService is only logged.
unfoldable init_service : Option ℕ → Binding → Answer Unit × Binding
init_service none s = (null_pointer, s)
init_service (some context) s = (returned tt, call (binds_service context) s)

-- `sdk` is Build.VERSION.SDK_INT. The object that is returned is the one INSTANCE.
unfoldable pub get_instance : ℕ → Option ℕ → Binding → Answer Unit × Binding
unfolding init_service
get_instance sdk context s =
    if s.instance_made
    then (returned tt, s)
    else if leb 28 sdk
    then init_service context (record s { instance_made = true; context = context })
    else (returned tt, record s { instance_made = true })

-- A failed linkToDeath is only logged.
unfoldable pub on_service_connected : Option ℕ → Binding → Answer Unit × Binding
on_service_connected none s = (null_pointer, record s { service = none })
on_service_connected (some binder) s =
    (returned tt, call (links_to_death binder) (record s { service = some binder }))

unfoldable pub on_service_disconnected : Binding → Answer Unit × Binding
unfolding init_service
on_service_disconnected s = elim s.context [
  | none ↦ (returned tt, s)
  | some context ↦ init_service (some context) s
]

unfoldable pub binder_died : Binding → Binding
binder_died s = elim s.service [ none ↦ s | some binder ↦ call (unlinks_to_death binder) s ]

-- `process_cmd` is what a service answers; `none` of it is a RemoteException, and `none` as the value
-- is null.
unfoldable pub process_cmd_v2 :
    (ℕ → List ℤ → Option (List ℤ)) → List ℤ → Binding → Answer (Option (List ℤ))
process_cmd_v2 process_cmd data_bytes s = elim s.service [
  | none ↦ null_pointer
  | some binder ↦ returned (process_cmd binder data_bytes)
]

-- A manager that is not there yet is asked of the context.
unfoldable look_up : Option ℕ → Option ℕ → Option ℕ → Answer (Option ℕ)
look_up (some manager) context found = returned (some manager)
look_up none none found = null_pointer
look_up none (some context) found = returned found

-- What getSystemService gives for the two names.
pub record SystemServices : Type 0 where
  pub fingerprint : Option ℕ
  pub keyguard : Option ℕ

unfoldable pub ensure_need_service_available : SystemServices → Binding → Answer Unit × Binding
unfolding look_up
ensure_need_service_available services s =
    elim (look_up s.fingerprint_manager s.context services.fingerprint) [
      | null_pointer ↦ (null_pointer, s)
      | returned fingerprint ↦
          let t = record s { fingerprint_manager = fingerprint } in
          elim (look_up s.keyguard_manager s.context services.keyguard) [
            | null_pointer ↦ (null_pointer, t)
            | returned keyguard ↦ (returned tt, record t { keyguard_manager = keyguard })
          ]
    ]

-- getEnabled; `is_keyguard_secure` is what a keyguard manager answers.
unfoldable pub get_enabled : SystemServices → (ℕ → Bool) → ℤ → Binding → Answer ℕ × Binding
unfolding ensure_need_service_available
get_enabled services is_keyguard_secure bio_type s =
    let (ensured, t) = ensure_need_service_available services s in
    elim ensured [
      | null_pointer ↦ (null_pointer, t)
      | returned u ↦ elim t.keyguard_manager [
        | none ↦ (null_pointer, t)
        | some keyguard ↦ (returned (Manager.get_enabled (is_keyguard_secure keyguard) bio_type), t)
      ]
    ]

-- getIDList; `enrolled` is what a fingerprint manager answers.
unfoldable pub get_id_list :
    SystemServices
    → (ℕ → Option (List (Option ℤ)))
    → ℤ
    → Binding
    → Answer (Option (List ℤ)) × Binding
unfolding ensure_need_service_available Manager.get_id_list
get_id_list services enrolled bio_type s =
    let (ensured, t) = ensure_need_service_available services s in
    elim ensured [
      | null_pointer ↦ (null_pointer, t)
      | returned u ↦
          (returned (Manager.get_id_list (map_option enrolled t.fingerprint_manager) bio_type), t)
    ]

-- What happens to the class, in any order.
pub data Event : Type 0 where
  gets_instance : Option ℕ → Event
  connects : Option ℕ → Event
  disconnects dies : Event
  asks_enabled asks_ids : SystemServices → ℤ → Event

module _ (sdk : ℕ) (is_keyguard_secure : ℕ → Bool) (enrolled : ℕ → Option (List (Option ℤ))) where
  unfoldable pub step : Event → Binding → Binding
  unfolding get_instance on_service_connected on_service_disconnected binder_died get_enabled
      get_id_list
  step (gets_instance context) s = (get_instance sdk context s).1
  step (connects binder) s = (on_service_connected binder s).1
  step disconnects s = (on_service_disconnected s).1
  step dies s = binder_died s
  step (asks_enabled services bio_type) s = (get_enabled services is_keyguard_secure bio_type s).1
  step (asks_ids services bio_type) s = (get_id_list services enrolled bio_type s).1

  unfoldable pub run : List Event → Binding → Binding
  unfolding step
  run [] s = s
  run (e ∷ es) s = run es (step e s)
