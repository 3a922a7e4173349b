-- ===== src/Services.antt =====
-- The main functions of the native services: fingerprint/service.cpp, als/default/main.cpp and
-- syshelper/main.cpp, as the calls that they make and how they end.
--
-- The thread pools, the service managers and the main loops that the last calls enter are not part
-- of this repository; the status of the registration is an argument, and so is whether the call
-- that joins the thread pool comes back.
use android_device_realme_sa.Base.{
  Bool, List, [], any, arith, false, if◌then◌else◌, true, ℕ, ◌++◌, ◌∷◌, ◌≡◌,
}

pub data Call : Type 0 where
  set_thread_pool_max_thread_count : ℕ → Call
  start_thread_pool : Call
  make_service : Call
  set_min_scheduler_policy : Call
  configure_rpc_threadpool : ℕ → Bool → Call
  register_service : Call
  join_thread_pool : Call

-- The process serves for ever, exits with a code, or is aborted by a failed check.
pub data Fate : Type 0 where
  serves : Fate
  exits : ℕ → Fate
  aborts : Fate

-- The fate of a process that joins its thread pool.
abbrev pub joins : Bool → ℕ → Fate
joins returns code = if returns then exits code else serves

-- fingerprint/service.cpp
unfoldable pub fingerprint_main : Bool → Bool → List Call × Fate
fingerprint_main registered returns =
    let begun =
      make_service
      ∷ set_min_scheduler_policy
      ∷ configure_rpc_threadpool 1 true
      ∷ register_service
      ∷ [] in
    if registered then (begun ++ join_thread_pool ∷ [], joins returns 0) else (begun, exits 1)

-- als/default/main.cpp
unfoldable pub als_main : Bool → Bool → List Call × Fate
als_main registered returns =
    let begun =
      set_thread_pool_max_thread_count 0
      ∷ start_thread_pool
      ∷ make_service
      ∷ register_service
      ∷ [] in
    if registered then (begun ++ join_thread_pool ∷ [], joins returns 1) else (begun, aborts)

-- syshelper/main.cpp
unfoldable pub syshelper_main : Bool → Bool → List Call × Fate
syshelper_main registered returns =
    let begun = set_thread_pool_max_thread_count 10 ∷ make_service ∷ register_service ∷ [] in
    if registered then (begun ++ join_thread_pool ∷ [], joins returns 1) else (begun, aborts)

pub joined : List Call → Bool
joined = any is_join
  where
    is_join : Call → Bool
    is_join join_thread_pool = true
    is_join _ = false

-- Each service joins its thread pool exactly when it could be registered, and a process that is not
-- registered never serves.
pub joined_iff_registered :
    (registered returns : Bool)
    → (joined (fingerprint_main registered returns).0 ≡ registered)
      × (joined (als_main registered returns).0 ≡ registered)
      × (joined (syshelper_main registered returns).0 ≡ registered)
      × ((fingerprint_main false returns).1 ≡ exits 1)
      × ((als_main false returns).1 ≡ aborts)
      × ((syshelper_main false returns).1 ≡ aborts)
unfolding joined fingerprint_main als_main syshelper_main
joined_iff_registered registered returns = ground arith
