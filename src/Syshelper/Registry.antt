-- ===== src/Syshelper/Registry.antt =====
-- syshelper/: the list of callbacks as its clients see it, a list of binder objects in order of
-- registration, and who is told what.
use mathlib.Core.List.{map-append}
use android_device_realme_sa.Base.{
  Bool, Bool-cases, List, [], any, ap, arith, elem, false, if◌then◌else◌, inl, inr, keep, none, not,
  refl, some, true, ℕ, ◌++◌, ◌==◌, ◌∙◌, ◌∷◌, ◌≡◌,
}
use android_device_realme_sa.Syshelper.Types.{
  BinderStatus, Callback, Linked, Notice, ScopedAStatus, UdfpsHelper, binder_of, binders,
  ex_illegal_argument, ex_illegal_state, ex_null_pointer, ok, status_error, status_ok,
}
use android_device_realme_sa.Syshelper.LinkedCallback.{make}
use android_device_realme_sa.Syshelper.UdfpsHelper.{
  erase_if, greet, is_dead_object_logged, link_in, notify, notify_all,
  on_udfps_touch_status_changed, register_callback, unregister_callback,
}

abbrev pub registered : UdfpsHelper → List ℕ
registered s = binders s.callbacks

-- The list without one binder object.
abbrev pub without : ℕ → List ℕ → List ℕ
without b = keep λ x. not (x == b)

binders-keep :
    (b : ℕ) (ls : List Linked)
    → binders (keep (λ l. not (binder_of l == b)) ls) ≡ without b (binders ls)
binders-keep b [] = refl
binders-keep b (l ∷ ls) = ground (arith, binders-keep b ls)

any-elem : (b : ℕ) (ls : List Linked) → any (λ l. binder_of l == b) ls ≡ elem b (binders ls)
any-elem b [] = refl
any-elem b (l ∷ ls) = ground (arith, any-elem b ls)

-- unregisterCallback refuses a null callback; otherwise it takes every registration of the callback's
-- binder object away, keeps the others in order, and succeeds exactly when there was one.
pub unregister_callback-registered :
    (s : UdfpsHelper)
    → (unregister_callback none s ≡ (ex_null_pointer, s))
      × ((c : Callback)
          → let (result, t) = unregister_callback (some c) s in
            (registered t ≡ without c.as_binder (registered s))
            × (result ≡ (if elem c.as_binder (registered s) then ok else ex_illegal_argument))
            × (t.calls ≡ s.calls)
            × (t.current_is_down_state ≡ s.current_is_down_state))
unfolding unregister_callback
unregister_callback-registered s = (
  refl,
  λ c. (binders-keep c.as_binder s.callbacks, rw (any-elem c.as_binder s.callbacks), refl, refl),
)

elem-without : (b : ℕ) (xs : List ℕ) → elem b (without b xs) ≡ false
elem-without b [] = refl
elem-without b (x ∷ xs) = ground (arith, elem-without b xs)

-- Whoever has unregistered is registered no more, and a second attempt is refused.
pub unregister_callback_twice :
    (c : Callback) (s : UdfpsHelper)
    → let t = (unregister_callback (some c) s).1 in
      (elem c.as_binder (registered t) ≡ false)
      × ((unregister_callback (some c) t).0 ≡ ex_illegal_argument)
unregister_callback_twice c s =
    let once = (unregister_callback-registered s).1 c in
    let gone : elem c.as_binder (registered (unregister_callback (some c) s).1) ≡ false =
      rw (once.0) (elem-without c.as_binder (registered s)) in
    let again = (unregister_callback-registered (unregister_callback (some c) s).1).1 c in
    (gone, again.1 ∙ rw gone)

-- The list once a linked callback has answered.
abbrev pub answered : ScopedAStatus → ℕ → List ℕ → List ℕ
answered reply b bs = if is_dead_object_logged reply then without b bs else bs

greet-registered :
    (reply : ScopedAStatus) (c : Callback) (s : UdfpsHelper)
    → (registered (greet reply c s) ≡ answered reply c.as_binder (registered s))
      × ((greet reply c s).calls
          ≡ record { callback = c; is_down = s.current_is_down_state } ∷ s.calls)
      × ((greet reply c s).current_is_down_state ≡ s.current_is_down_state)
unfolding greet
greet-registered reply c s = elim (Bool-cases (is_dead_object_logged reply)) [
  | inl dead ↦
      let told = notify s.current_is_down_state c s in
      let (same, result, calls, down) = (unregister_callback-registered told).1 c in
      rw (dead, greet) (same, calls, down)
  | inr alive ↦ rw (alive, greet) (refl, refl, refl)
]

-- registerCallback refuses a null callback and one that cannot be linked, and changes nothing then.
-- Any other goes to the end of the list and is told the current touch state, and nobody else is told
-- anything; if it turns out to be dead, all its registrations are removed. The call succeeds either
-- way.
pub register_callback-registered :
    (address : ℕ) (reply : ScopedAStatus) (s : UdfpsHelper)
    → ((linking : BinderStatus)
        → register_callback address linking reply none s ≡ (ex_null_pointer, s))
      × ((c : Callback) (e : ℕ)
          → register_callback address (status_error e) reply (some c) s ≡ (ex_illegal_state, s))
      × ((c : Callback)
          → let (result, t) = register_callback address status_ok reply (some c) s in
            (result ≡ ok)
            × (registered t ≡ answered reply c.as_binder (registered s ++ c.as_binder ∷ []))
            × (t.calls ≡ record { callback = c; is_down = s.current_is_down_state } ∷ s.calls)
            × (t.current_is_down_state ≡ s.current_is_down_state))
unfolding register_callback link_in make
register_callback-registered address reply s = (
  λ linking. refl,
  λ c e. refl,
  λ c.
      let (list, calls, down) = greet-registered reply c (pushed c) in
      (refl, list ∙ ap (answered reply c.as_binder) (map-append _ s.callbacks _), calls, down),
)
  where
    pushed : Callback → UdfpsHelper
    pushed c = record s {
      callbacks = s.callbacks ++ record { address = address; callback = c } ∷ [];
      links = s.links ++ record { binder = c.as_binder; cookie = address } ∷ [];
    }

-- Registering a callback that answers and unregistering it again gives back the list, if its binder
-- object was not on it.
pub unregister-register :
    (address : ℕ) (reply : ScopedAStatus) (c : Callback) (s : UdfpsHelper)
    → is_dead_object_logged reply ≡ false
    → elem c.as_binder (registered s) ≡ false
    → let t = (register_callback address status_ok reply (some c) s).1 in
      ((unregister_callback (some c) t).0 ≡ ok)
      × (registered (unregister_callback (some c) t).1 ≡ registered s)
unregister-register address reply c s alive absent =
    let t = (register_callback address status_ok reply (some c) s).1 in
    let (result, list, calls, down) = (register_callback-registered address reply s).2 c in
    let (list', result', calls', down') = (unregister_callback-registered t).1 c in
    let now : registered t ≡ registered s ++ c.as_binder ∷ [] = list ∙ rw alive in
    (
      result' ∙ rw now (rw (elem-last c.as_binder (registered s))),
      list' ∙ rw now (without-last c.as_binder (registered s) absent),
    )
  where
    elem-last : (b : ℕ) (xs : List ℕ) → elem b (xs ++ b ∷ []) ≡ true
    elem-last b [] = ground arith
    elem-last b (x ∷ xs) = ground (arith, elem-last b xs)

    without-last : (b : ℕ) (xs : List ℕ) → elem b xs ≡ false → without b (xs ++ b ∷ []) ≡ xs
    without-last b [] h = ground arith
    without-last b (x ∷ xs) h = ground (arith, without-last b xs)

-- The notices of a broadcast, one for each callback in order of registration, newest first.
pub broadcast : Bool → List Linked → List Notice → List Notice
broadcast d [] cs = cs
broadcast d (l ∷ ls) cs = broadcast d ls (record { callback = l.callback; is_down = d } ∷ cs)

notify_all-calls :
    (d : Bool) (ls : List Linked) (s : UdfpsHelper)
    → (notify_all d ls s).calls ≡ broadcast d ls s.calls
unfolding notify_all broadcast
notify_all-calls d [] s = refl
notify_all-calls d (l ∷ ls) s = notify_all-calls d ls (notify d l.callback s)

notify_all-callbacks :
    (d : Bool) (ls : List Linked) (s : UdfpsHelper)
    → ((notify_all d ls s).callbacks ≡ s.callbacks)
      × ((notify_all d ls s).current_is_down_state ≡ s.current_is_down_state)
unfolding notify_all
notify_all-callbacks d [] s = (refl, refl)
notify_all-callbacks d (l ∷ ls) s = notify_all-callbacks d ls (notify d l.callback s)

-- OnUdfpsTouchStatusChanged tells every registered callback the state once, in order, and removes
-- exactly the callbacks that answer that they are dead.
on_udfps_touch_status_changed_lem :
    (replies : Linked → ScopedAStatus) (d : Bool) (s : UdfpsHelper)
    → let t = on_udfps_touch_status_changed replies d s in
      (t.calls ≡ broadcast d s.callbacks s.calls)
      × (t.callbacks ≡ keep (λ l. not (is_dead_object_logged (replies l))) s.callbacks)
      × (t.current_is_down_state ≡ s.current_is_down_state)
unfolding on_udfps_touch_status_changed erase_if
on_udfps_touch_status_changed_lem replies d s =
    let (same, down) = notify_all-callbacks d s.callbacks s in
    (
      notify_all-calls d s.callbacks s,
      ap (keep (λ l. not (is_dead_object_logged (replies l)))) same,
      down,
    )
