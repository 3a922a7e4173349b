-- ===== src/Syshelper/TestClient.antt =====
-- syshelper/test/main.cpp: a client that registers a callback, prints the answer and exits.
--
-- The service manager is not part of this repository: whether the service is declared is an argument.
-- (The file uses a variable `ret` that it does not declare; it is read as the status of the call.)
use android_device_realme_sa.Base.{
  Bool, List, Option, [], ap, arith, elem, false, if◌then◌else◌, none, refl, some, true, ℕ, ◌++◌,
  ◌∙◌, ◌∷◌, ◌≡◌,
}
use android_device_realme_sa.Syshelper.Types.{
  BinderStatus, Callback, Linked, ScopedAStatus, UdfpsHelper, addresses, ex_null_pointer, ok,
  status_ok,
}
use android_device_realme_sa.Syshelper.LinkedCallback.{find_linked}
use android_device_realme_sa.Syshelper.UdfpsHelper.{
  is_dead_object_logged, on_callback_died, register_callback, unregister_callback,
}
use android_device_realme_sa.Syshelper.Registry.{
  register_callback-registered, registered, unregister-register,
}

-- OplusUdfpsHelperCallback::onUdfpsTouchStatusChanged
unfoldable pub test_callback : Bool → ScopedAStatus
test_callback in_is_down = ex_null_pointer

-- main; `none` is the abort where the service is not declared. The status is what it prints.
unfoldable pub test_main :
    Bool → ℕ → BinderStatus → Callback → UdfpsHelper → Option (ScopedAStatus × UdfpsHelper)
unfolding test_callback register_callback
test_main declared address linking callback s =
    if declared
    then some (
        register_callback address linking (test_callback s.current_is_down_state) (some callback) s)
    else none

find_linked-last :
    (l : Linked) (ls : List Linked)
    → elem l.address (addresses ls) ≡ false
    → find_linked l.address (ls ++ l ∷ []) ≡ some l
unfolding find_linked
find_linked-last l [] fresh = ground arith
find_linked-last l (k ∷ ks) fresh = ground (arith, find_linked-last l ks)

registered_last :
    (address : ℕ) (c : Callback) (s : UdfpsHelper)
    → (register_callback address status_ok ex_null_pointer (some c) s).1.callbacks
      ≡ s.callbacks ++ record { address = address; callback = c } ∷ []
unfolding register_callback
registered_last address c s = refl

-- The test client is registered although its callback answers with an exception, since this one does
-- not mean that it is dead; and when it has exited, the report of its death gives back the list as it
-- was before.
test_client_leaves :
    (address : ℕ) (c : Callback) (s : UdfpsHelper)
    → elem address (addresses s.callbacks) ≡ false
    → elem c.as_binder (registered s) ≡ false
    → (t u : UdfpsHelper) × (test_main true address status_ok c s ≡ some (ok, t))
      × (registered t ≡ registered s ++ c.as_binder ∷ [])
      × (on_callback_died address t ≡ some u)
      × (registered u ≡ registered s)
unfolding test_main on_callback_died is_dead_object_logged
test_client_leaves address c s fresh absent =
    let (result, t) = register_callback address status_ok ex_null_pointer (some c) s in
    let (done, list, calls, state) = (register_callback-registered address ex_null_pointer s).2 c in
    let l : Linked = record { address = address; callback = c } in
    let found : find_linked address t.callbacks ≡ some l =
      ap (find_linked address) (registered_last address c s)
      ∙ find_linked-last l s.callbacks fresh in
    (
      t,
      (unregister_callback (some c) t).1,
      λ i. some (done i, t),
      list,
      rw (found, on_callback_died),
      (unregister-register address ex_null_pointer c s refl absent).1,
    )
