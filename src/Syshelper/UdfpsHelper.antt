-- ===== src/Syshelper/UdfpsHelper.antt =====
-- syshelper/UdfpsHelper.cpp: the methods of the service.
use android_device_realme_sa.Base.{
  Bool, List, Option, [], any, false, if◌then◌else◌, keep, none, not, some, true, ℕ, ◌++◌, ◌==◌,
  ◌∷◌,
}
use android_device_realme_sa.Syshelper.Types.{
  BinderStatus, Callback, Linked, ScopedAStatus, UdfpsHelper, binder_of, ex_illegal_argument,
  ex_illegal_state, ex_null_pointer, ok, status_dead_object,
}
use android_device_realme_sa.Syshelper.LinkedCallback.{destroy, find_linked, make, unlink_to_death}

unfoldable pub is_dead_object_logged : ScopedAStatus → Bool
is_dead_object_logged ok = false
is_dead_object_logged status_dead_object = true
is_dead_object_logged _ = false

unfoldable pub construct : UdfpsHelper
construct = record { current_is_down_state = false; callbacks = []; links = []; calls = [] }

unfoldable pub touch_down : UdfpsHelper → ScopedAStatus × UdfpsHelper
touch_down s = (ok, record s { current_is_down_state = true })

unfoldable pub touch_up : UdfpsHelper → ScopedAStatus × UdfpsHelper
touch_up s = (ok, record s { current_is_down_state = false })

unfoldable pub get_touch_status : UdfpsHelper → ScopedAStatus × Bool
get_touch_status s = (ok, s.current_is_down_state)

abbrev pub notify : Bool → Callback → UdfpsHelper → UdfpsHelper
notify is_down c s = record s { calls = record { callback = c; is_down = is_down } ∷ s.calls }

-- `erase(remove_if(..., p), end())`: the callbacks that fail the test stay in order, the others are
-- destroyed.
unfoldable pub erase_if : (Linked → Bool) → UdfpsHelper → UdfpsHelper
unfolding destroy unlink_to_death
erase_if p s = record s {
  callbacks = keep (λ l. not (p l)) s.callbacks;
  links = destroy (keep p s.callbacks) s.links;
}

-- The calls that remove_if makes through `is_dead`, one for each callback in order.
unfoldable pub notify_all : Bool → List Linked → UdfpsHelper → UdfpsHelper
notify_all is_downed [] s = s
notify_all is_downed (l ∷ ls) s = notify_all is_downed ls (notify is_downed l.callback s)

-- `replies` is what each callback answers.
unfoldable pub on_udfps_touch_status_changed :
    (Linked → ScopedAStatus) → Bool → UdfpsHelper → UdfpsHelper
unfolding is_dead_object_logged erase_if notify_all
on_udfps_touch_status_changed replies is_downed s =
    erase_if (λ l. is_dead_object_logged (replies l)) (notify_all is_downed s.callbacks s)

unfoldable pub unregister_callback : Option Callback → UdfpsHelper → ScopedAStatus × UdfpsHelper
unfolding erase_if
unregister_callback none s = (ex_null_pointer, s)
unregister_callback (some c) s =
    let matches = λ (l : Linked). binder_of l == c.as_binder in
    (if any matches s.callbacks then ok else ex_illegal_argument, erase_if matches s)

-- The part of registerCallback after the callback is linked: it learns the touch state at once, and
-- goes again if it is dead.
unfoldable pub greet : ScopedAStatus → Callback → UdfpsHelper → UdfpsHelper
unfolding is_dead_object_logged unregister_callback
greet reply c s =
    let told = notify s.current_is_down_state c s in
    if is_dead_object_logged reply then (unregister_callback (some c) told).1 else told

-- The locked part of registerCallback: whether the callback could be linked, and the service with it
-- at the end of the list. `address` is where the new object is allocated, and `linking` the driver's
-- answer to linkToDeath.
unfoldable pub link_in : ℕ → BinderStatus → Callback → UdfpsHelper → Bool × UdfpsHelper
unfolding make
link_in address linking c s =
    let made = make address linking c s.links in
    elim made.0 [
      | none ↦ (false, record s { links = made.1 })
      | some linked ↦ (true, record s { callbacks = s.callbacks ++ linked ∷ []; links = made.1 })
    ]

-- `reply` is the callback's answer to its first notification.
unfoldable pub register_callback :
    ℕ → BinderStatus → ScopedAStatus → Option Callback → UdfpsHelper → ScopedAStatus × UdfpsHelper
unfolding link_in greet
register_callback address linking reply none s = (ex_null_pointer, s)
register_callback address linking reply (some c) s =
    let (linked, t) = link_in address linking c s in
    if linked then (ok, greet reply c t) else (ex_illegal_state, t)

-- LinkedCallback::OnCallbackDied
unfoldable linked_died : Linked → UdfpsHelper → UdfpsHelper
unfolding unregister_callback
linked_died l s = (unregister_callback (some l.callback) s).1

-- OnCallbackDiedWrapped: the cookie is cast to the object. `none` is a cast of a dangling cookie.
unfoldable pub on_callback_died : ℕ → UdfpsHelper → Option UdfpsHelper
unfolding find_linked linked_died
on_callback_died cookie s = elim (find_linked cookie s.callbacks) [
  | none ↦ none
  | some l ↦ some (linked_died l s)
]
