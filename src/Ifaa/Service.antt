-- ===== src/Ifaa/Service.antt =====
-- ifaamanager/: the service that a command reaches, and how often it is bound, over a history.
use android_device_realme_sa.Base.{
  All, Bool, List, Option, [], ap, arith, false, is_some, leb, none, refl, some, suc, sym, true, ℕ,
  ◌+◌, ◌∙◌, ◌∷◌, ◌≡◌,
}
use android_device_realme_sa.Base.Int.{ℤ}
use android_device_realme_sa.Ifaa.Binding.{
  Answer, Binding, Call, Event, SystemServices, asks_enabled, asks_ids, binder_died, binds_service,
  connects, dies, disconnects, ensure_need_service_available, get_enabled, get_id_list,
  get_instance, gets_instance, links_to_death, null_pointer, on_service_connected,
  on_service_disconnected, process_cmd_v2, returned, run, step, unlinks_to_death, unused,
}

-- The binder that the last connection brought.
abbrev connected_by : Event → Option ℕ → Option ℕ
connected_by (connects binder) before = binder
connected_by _ before = before

abbrev pub last_connected : List Event → Option ℕ → Option ℕ
last_connected [] before = before
last_connected (e ∷ es) before = last_connected es (connected_by e before)

abbrev pub answered : (ℕ → List ℤ → Option (List ℤ)) → List ℤ → Option ℕ → Answer (Option (List ℤ))
answered process_cmd data_bytes none = null_pointer
answered process_cmd data_bytes (some binder) = returned (process_cmd binder data_bytes)

-- The first instance binds, and so does each disconnection after it.
abbrev pub wanted_bindings : List Event → Bool → ℕ
wanted_bindings [] made = 0
wanted_bindings (gets_instance context ∷ es) false = suc (wanted_bindings es true)
wanted_bindings (gets_instance context ∷ es) true = wanted_bindings es true
wanted_bindings (disconnects ∷ es) true = suc (wanted_bindings es true)
wanted_bindings (disconnects ∷ es) false = wanted_bindings es false
wanted_bindings (connects binder ∷ es) made = wanted_bindings es made
wanted_bindings (dies ∷ es) made = wanted_bindings es made
wanted_bindings (asks_enabled services bio_type ∷ es) made = wanted_bindings es made
wanted_bindings (asks_ids services bio_type ∷ es) made = wanted_bindings es made

abbrev pub bindings_in : List Call → ℕ
bindings_in [] = 0
bindings_in (binds_service context ∷ cs) = suc (bindings_in cs)
bindings_in (links_to_death binder ∷ cs) = bindings_in cs
bindings_in (unlinks_to_death binder ∷ cs) = bindings_in cs

-- An instance is asked for with a context that is not null.
abbrev pub HasContext : Event → Type 0
HasContext (gets_instance none) = ⊥
HasContext _ = Unit

record Same (s t : Binding) : Type 0 where
  pub same_instance : t.instance_made ≡ s.instance_made
  pub same_context : t.context ≡ s.context
  pub same_service : t.service ≡ s.service
  pub same_calls : t.calls ≡ s.calls

ensure-Same :
    (services : SystemServices) (s : Binding) → Same s (ensure_need_service_available services s).1
unfolding ensure_need_service_available
ensure-Same services s = record {
  same_instance = ground arith;
  same_context = ground arith;
  same_service = ground arith;
  same_calls = ground arith;
}

-- INSTANCE is made together with the context.
abbrev IsBound : Binding → Type 0
IsBound s = s.instance_made ≡ is_some s.context

process_cmd_v2-answered :
    (process_cmd : ℕ → List ℤ → Option (List ℤ)) (data_bytes : List ℤ) (s : Binding)
    → process_cmd_v2 process_cmd data_bytes s ≡ answered process_cmd data_bytes s.service
unfolding process_cmd_v2
process_cmd_v2-answered process_cmd data_bytes s = ground arith

module _ (sdk : ℕ) (is_keyguard_secure : ℕ → Bool) (enrolled : ℕ → Option (List (Option ℤ))) where
  enabled-Same :
      (services : SystemServices) (bio_type : ℤ) (s : Binding)
      → Same s (get_enabled services is_keyguard_secure bio_type s).1
  unfolding get_enabled
  enabled-Same services bio_type s = ground (arith, ensure-Same services s)

  ids-Same :
      (services : SystemServices) (bio_type : ℤ) (s : Binding)
      → Same s (get_id_list services enrolled bio_type s).1
  unfolding get_id_list
  ids-Same services bio_type s = ground (arith, ensure-Same services s)

  abbrev after : Event → Binding → Binding
  after = step sdk is_keyguard_secure enrolled

  abbrev history : List Event → Binding → Binding
  history = run sdk is_keyguard_secure enrolled

  step-service : (e : Event) (s : Binding) → (after e s).service ≡ connected_by e s.service
  unfolding step get_instance on_service_connected on_service_disconnected binder_died
  step-service (gets_instance context) s = ground arith
  step-service (connects binder) s = ground arith
  step-service disconnects s = ground arith
  step-service dies s = ground arith
  step-service (asks_enabled services bio_type) s = (enabled-Same services bio_type s).same_service
  step-service (asks_ids services bio_type) s = (ids-Same services bio_type s).same_service

  run-service :
      (es : List Event) (s : Binding) → (history es s).service ≡ last_connected es s.service
  unfolding run
  run-service [] s = refl
  run-service (e ∷ es) s = run-service es (after e s) ∙ ap (last_connected es) (step-service e s)

  -- What an event does to the count of the bindings, past and to come.
  Counts : Event → List Event → Binding → Binding → Type 0
  Counts e es s t =
      IsBound t
      × (wanted_bindings (e ∷ es) s.instance_made + bindings_in s.calls
          ≡ wanted_bindings es t.instance_made + bindings_in t.calls)

  Same-IsBound : {s t : Binding} → Same s t → IsBound s → IsBound t
  Same-IsBound k i = k.same_instance ∙ i ∙ ap is_some (sym k.same_context)

  Same-bindings :
      {s t : Binding} (es : List Event)
      → Same s t
      → wanted_bindings es s.instance_made + bindings_in s.calls
        ≡ wanted_bindings es t.instance_made + bindings_in t.calls
  Same-bindings es k =
      λ i. wanted_bindings es (sym k.same_instance i) + bindings_in (sym k.same_calls i)

  step-Counts :
      (e : Event) (es : List Event) (s : Binding)
      → leb 28 sdk ≡ true
      → HasContext e
      → IsBound s
      → Counts e es s (after e s)
  unfolding Counts step get_instance on_service_connected on_service_disconnected binder_died
  step-Counts (gets_instance none) es s new h i = elim h [ ]
  step-Counts (gets_instance (some context)) es s new h i = ground arith
  step-Counts (connects none) es s new h i = ground arith
  step-Counts (connects (some binder)) es s new h i = ground arith
  step-Counts disconnects es s new h i = ground arith
  step-Counts dies es s new h i = ground arith
  step-Counts (asks_enabled services bio_type) es s new h i =
      let k = enabled-Same services bio_type s in (Same-IsBound k i, Same-bindings es k)
  step-Counts (asks_ids services bio_type) es s new h i =
      let k = ids-Same services bio_type s in (Same-IsBound k i, Same-bindings es k)

  run-bindings :
      (es : List Event) (s : Binding)
      → leb 28 sdk ≡ true
      → All HasContext es
      → IsBound s
      → bindings_in (history es s).calls ≡ wanted_bindings es s.instance_made + bindings_in s.calls
  unfolding run Counts
  run-bindings [] s new h i = omega arith
  run-bindings (e ∷ es) s new h i =
      let c = step-Counts e es s new h.0 i in run-bindings es (after e s) new h.1 c.0 ∙ sym c.1

-- Over every history of the class on SDK 28 or later whose contexts are not null, a command goes to the
-- binder of the last connection, whether it died or was disconnected since, and throws a
-- NullPointerException if there was none or it brought null; and the service was asked to bind once
-- for the instance and once for each disconnection after it.
pub run-commands :
    (sdk : ℕ) (is_keyguard_secure : ℕ → Bool) (enrolled : ℕ → Option (List (Option ℤ)))
    (process_cmd : ℕ → List ℤ → Option (List ℤ)) (data_bytes : List ℤ) (es : List Event)
    → leb 28 sdk ≡ true
    → All HasContext es
    → let s = run sdk is_keyguard_secure enrolled es unused in
      (process_cmd_v2 process_cmd data_bytes s
        ≡ answered process_cmd data_bytes (last_connected es none))
      × (bindings_in s.calls ≡ wanted_bindings es false)
unfolding process_cmd_v2
run-commands sdk is_keyguard_secure enrolled process_cmd data_bytes es new h =
    let s = run sdk is_keyguard_secure enrolled es unused in
    (
      process_cmd_v2-answered process_cmd data_bytes s
          ∙ ap (answered process_cmd data_bytes)
              (run-service sdk is_keyguard_secure enrolled es unused),
      omega (arith, run-bindings sdk is_keyguard_secure enrolled es unused new h refl),
    )
