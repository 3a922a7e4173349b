-- ===== src/Syshelper/Safety.antt =====
-- syshelper/: every reachable state of the service, over all the calls that clients and the binder
-- driver may make in any order.
use android_device_realme_sa.Base.{
  Bool, Bool-cases, List, Option, Option-cases, [], ap, arith, elem, false, get_or_else, inl, inr,
  map, refl, some, subst, sym, true, ℕ, ◌==◌, ◌∙◌, ◌∷◌, ◌≡◌,
}
use android_device_realme_sa.Syshelper.Types.{
  BinderStatus, Callback, Linked, ScopedAStatus, UdfpsHelper, addresses, binder_of, cookies,
  link_of,
}
use android_device_realme_sa.Syshelper.LinkedCallback.{find_linked}
use android_device_realme_sa.Syshelper.UdfpsHelper.{
  construct, greet, link_in, on_callback_died, on_udfps_touch_status_changed, register_callback,
  touch_down, touch_up, unregister_callback,
}
use android_device_realme_sa.Syshelper.Links.{
  IsLinked, greet-IsLinked, link_in-IsLinked, on_udfps_touch_status_changed-IsLinked,
  register_callback-IsLinked, unregister_callback-IsLinked,
}
use android_device_realme_sa.Syshelper.Registry.{
  registered, unregister_callback-registered, unregister_callback_twice, without,
}

-- A registration is one step, or its locked part and its notification are two with others between.
-- An allocation gives an address that no live object has, and the driver reports a death with the
-- cookie of a link that it holds.
pub data Step (s : UdfpsHelper) : UdfpsHelper → Type 0 where
  down : Step s (touch_down s).1
  up : Step s (touch_up s).1
  registers :
      (address : ℕ) (linking : BinderStatus) (reply : ScopedAStatus) (c : Option Callback)
      → elem address (addresses s.callbacks) ≡ false
      → Step s (register_callback address linking reply c s).1
  links_in :
      (address : ℕ) (linking : BinderStatus) (c : Callback)
      → elem address (addresses s.callbacks) ≡ false
      → Step s (link_in address linking c s).1
  greets : (reply : ScopedAStatus) (c : Callback) → Step s (greet reply c s)
  unregisters : (c : Option Callback) → Step s (unregister_callback c s).1
  broadcasts :
      (replies : Linked → ScopedAStatus) (d : Bool)
      → Step s (on_udfps_touch_status_changed replies d s)
  dies :
      (cookie : ℕ) {t : UdfpsHelper}
      → elem cookie (cookies s.links) ≡ true
      → on_callback_died cookie s ≡ some t
      → Step s t

pub data Reach : UdfpsHelper → Type 0 where
  start : Reach construct
  next : {s t : UdfpsHelper} → Reach s → Step s t → Reach t

on_callback_died-IsLinked :
    (cookie : ℕ) (s : UdfpsHelper) {t : UdfpsHelper}
    → on_callback_died cookie s ≡ some t
    → IsLinked s
    → IsLinked t
unfolding on_callback_died
on_callback_died-IsLinked cookie s e i = elim (Option-cases (find_linked cookie s.callbacks)) [
  | inl missing ↦ cc (rw (missing, on_callback_died) at e)
  | inr (l, found) ↦
      let t = (unregister_callback (some l.callback) s).1 in
      let done : on_callback_died cookie s ≡ some t = rw (found, on_callback_died) in
      subst IsLinked (ap (λ o. get_or_else o s) (sym done ∙ e))
        (unregister_callback-IsLinked (some l.callback) s i)
]

Step-IsLinked : {s t : UdfpsHelper} → Step s t → IsLinked s → IsLinked t
unfolding touch_down touch_up
Step-IsLinked down i = record { distinct = i.distinct; linked = i.linked }
Step-IsLinked up i = record { distinct = i.distinct; linked = i.linked }
Step-IsLinked {s} (registers address linking reply c fresh) i =
    register_callback-IsLinked address linking reply c s fresh i
Step-IsLinked {s} (links_in address linking c fresh) i =
    link_in-IsLinked address linking c s fresh i
Step-IsLinked {s} (greets reply c) i = greet-IsLinked reply c s i
Step-IsLinked {s} (unregisters c) i = unregister_callback-IsLinked c s i
Step-IsLinked {s} (broadcasts replies d) i = on_udfps_touch_status_changed-IsLinked replies d s i
Step-IsLinked {s} (dies cookie held e) i = on_callback_died-IsLinked cookie s e i

-- In every reachable state the driver holds exactly one death link for each registered callback,
-- whose cookie is the address of that callback's object, and no two objects share an address; other
-- calls may come between the two parts of a registration.
pub Reach-IsLinked : {s : UdfpsHelper} → Reach s → IsLinked s
unfolding construct
Reach-IsLinked start = record { distinct = tt; linked = refl }
Reach-IsLinked (next r step) = Step-IsLinked step (Reach-IsLinked r)

find_linked-some :
    (cookie : ℕ) (ls : List Linked)
    → elem cookie (cookies (map link_of ls)) ≡ true
    → (l : Linked) × (find_linked cookie ls ≡ some l)
unfolding find_linked
find_linked-some cookie [] h = cc
find_linked-some cookie (l ∷ ls) h = elim (Bool-cases (l.address == cookie)) [
  | inl hit ↦ (l, rw hit)
  | inr miss ↦ rw miss (find_linked-some cookie ls (ground arith))
]

-- A death report never meets a dangling cookie: in every reachable state the object of each link
-- that the driver holds is still there, its callback's binder object is registered no more after the
-- report, and the other registrations stay in order.
pub cookie_safe :
    {s : UdfpsHelper} (cookie : ℕ)
    → Reach s
    → elem cookie (cookies s.links) ≡ true
    → (l : Linked) × (t : UdfpsHelper) × (find_linked cookie s.callbacks ≡ some l)
      × (on_callback_died cookie s ≡ some t)
      × (registered t ≡ without (binder_of l) (registered s))
      × (elem (binder_of l) (registered t) ≡ false)
unfolding on_callback_died
cookie_safe {s} cookie r held =
    let i = Reach-IsLinked r in
    let (l, found) = find_linked-some cookie s.callbacks (rw i.linked at held) in
    let t = (unregister_callback (some l.callback) s).1 in
    let same = (unregister_callback-registered s).1 l.callback in
    (l, t, found, rw (found, on_callback_died), same.0, (unregister_callback_twice l.callback s).0)
