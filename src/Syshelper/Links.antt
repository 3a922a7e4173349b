-- ===== src/Syshelper/Links.antt =====
-- syshelper/: the death links are those of the registered callbacks, after every operation.
use mathlib.Core.List.{map-append}
use android_device_realme_sa.Base.{
  Bool, Bool-cases, List, Option, [], ap, arith, elem, false, inl, inr, keep, map, none, not, refl,
  some, subst, sym, ℕ, ◌++◌, ◌==◌, ◌∙◌, ◌∷◌, ◌≡◌,
}
use android_device_realme_sa.Syshelper.Types.{
  BinderStatus, Callback, Link, Linked, ScopedAStatus, UdfpsHelper, addresses, link_of,
  status_error, status_ok,
}
use android_device_realme_sa.Syshelper.LinkedCallback.{destroy, make, unlink_to_death}
use android_device_realme_sa.Syshelper.UdfpsHelper.{
  erase_if, greet, is_dead_object_logged, link_in, notify, notify_all,
  on_udfps_touch_status_changed, register_callback, unregister_callback,
}

-- No two objects share an address.
abbrev Distinct : List Linked → Type 0
Distinct [] = Unit {0}
Distinct (l ∷ ls) = (elem l.address (addresses ls) ≡ false) × Distinct ls

-- The driver holds one death link for each registered callback, with the callback's own address as
-- its cookie, and no other.
pub record IsLinked (s : UdfpsHelper) : Type 0 where
  pub distinct : Distinct s.callbacks
  pub linked : s.links ≡ map link_of s.callbacks

elem-keep :
    (p : Linked → Bool) (a : ℕ) (ls : List Linked)
    → elem a (addresses ls) ≡ false
    → elem a (addresses (keep p ls)) ≡ false
elem-keep p a [] h = refl
elem-keep p a (l ∷ ls) h = ground (arith, elem-keep p a ls)

keep-Distinct : (p : Linked → Bool) (ls : List Linked) → Distinct ls → Distinct (keep p ls)
keep-Distinct p [] d = tt
keep-Distinct p (l ∷ ls) d = ground (arith, keep-Distinct p ls d.1, elem-keep p l.address ls d.0)

elem-append :
    (a b : ℕ) (ls : List Linked) (c : Callback)
    → elem a (addresses ls) ≡ false
    → (a == b) ≡ false
    → elem a (addresses (ls ++ record { address = b; callback = c } ∷ [])) ≡ false
elem-append a b [] c h n = ground arith
elem-append a b (l ∷ ls) c h n = ground (arith, elem-append a b ls c)

append-Distinct :
    (ls : List Linked) (a : ℕ) (c : Callback)
    → Distinct ls
    → elem a (addresses ls) ≡ false
    → Distinct (ls ++ record { address = a; callback = c } ∷ [])
append-Distinct [] a c d h = ground arith
append-Distinct (l ∷ ls) a c d h =
    ground (arith, append-Distinct ls a c d.1, elem-append l.address a ls c d.0)

-- The first link stays when other objects are destroyed.
destroy-cons :
    (l : Linked) (rs : List Linked) (ks : List Link)
    → elem l.address (addresses rs) ≡ false
    → destroy rs (link_of l ∷ ks) ≡ link_of l ∷ destroy rs ks
unfolding destroy unlink_to_death
destroy-cons l [] ks h = refl
destroy-cons l (r ∷ rs) ks h = ground (arith, destroy-cons l rs (unlink_to_death (link_of r) ks))

-- Destroying the objects that pass a test leaves the links of the others.
destroy-keep :
    (p : Linked → Bool) (ls : List Linked)
    → Distinct ls
    → destroy (keep p ls) (map link_of ls) ≡ map link_of (keep (λ l. not (p l)) ls)
unfolding destroy unlink_to_death
destroy-keep p [] d = refl
destroy-keep p (l ∷ ls) d = ground (
  arith,
  destroy-keep p ls d.1,
  destroy-cons l (keep p ls) (map link_of ls),
  elem-keep p l.address ls d.0,
)

erase_if-IsLinked : (p : Linked → Bool) (s : UdfpsHelper) → IsLinked s → IsLinked (erase_if p s)
unfolding erase_if
erase_if-IsLinked p s i = record {
  distinct = keep-Distinct (λ l. not (p l)) s.callbacks i.distinct;
  linked = rw i.linked (destroy-keep p s.callbacks i.distinct);
}

pub unregister_callback-IsLinked :
    (c : Option Callback) (s : UdfpsHelper) → IsLinked s → IsLinked (unregister_callback c s).1
unfolding unregister_callback
unregister_callback-IsLinked none s i = i
unregister_callback-IsLinked (some c) s i = erase_if-IsLinked _ s i

pub greet-IsLinked :
    (reply : ScopedAStatus) (c : Callback) (s : UdfpsHelper)
    → IsLinked s
    → IsLinked (greet reply c s)
unfolding greet
greet-IsLinked reply c s i = elim (Bool-cases (is_dead_object_logged reply)) [
  | inl dead ↦
      rw (dead, greet)
        (unregister_callback-IsLinked (some c) (notify s.current_is_down_state c s)
          (record { distinct = i.distinct; linked = i.linked }))
  | inr alive ↦ rw (alive, greet) (record { distinct = i.distinct; linked = i.linked })
]

-- The new object's address is not that of another.
pub link_in-IsLinked :
    (address : ℕ) (linking : BinderStatus) (c : Callback) (s : UdfpsHelper)
    → elem address (addresses s.callbacks) ≡ false
    → IsLinked s
    → IsLinked (link_in address linking c s).1
unfolding link_in make
link_in-IsLinked address (status_error e) c s fresh i = record {
  distinct = i.distinct;
  linked = i.linked;
}
link_in-IsLinked address status_ok c s fresh i = record {
  distinct = append-Distinct s.callbacks address c i.distinct fresh;
  linked = rw (i.linked, map-append) refl;
}

pub register_callback-IsLinked :
    (address : ℕ) (linking : BinderStatus) (reply : ScopedAStatus) (c : Option Callback)
    (s : UdfpsHelper)
    → elem address (addresses s.callbacks) ≡ false
    → IsLinked s
    → IsLinked (register_callback address linking reply c s).1
unfolding register_callback link_in make
register_callback-IsLinked address linking reply none s fresh i = i
register_callback-IsLinked address (status_error e) reply (some c) s fresh i =
    link_in-IsLinked address (status_error e) c s fresh i
register_callback-IsLinked address status_ok reply (some c) s fresh i =
    greet-IsLinked reply c _ (link_in-IsLinked address status_ok c s fresh i)

notify_all-same :
    (d : Bool) (ls : List Linked) (s : UdfpsHelper)
    → ((notify_all d ls s).callbacks ≡ s.callbacks) × ((notify_all d ls s).links ≡ s.links)
unfolding notify_all
notify_all-same d [] s = (refl, refl)
notify_all-same d (l ∷ ls) s = notify_all-same d ls (notify d l.callback s)

pub on_udfps_touch_status_changed-IsLinked :
    (replies : Linked → ScopedAStatus) (d : Bool) (s : UdfpsHelper)
    → IsLinked s
    → IsLinked (on_udfps_touch_status_changed replies d s)
unfolding on_udfps_touch_status_changed
on_udfps_touch_status_changed-IsLinked replies d s i =
    let (same, links) = notify_all-same d s.callbacks s in
    erase_if-IsLinked _ _ (record {
      distinct = subst Distinct (sym same) i.distinct;
      linked = links ∙ i.linked ∙ ap (map link_of) (sym same);
    })
