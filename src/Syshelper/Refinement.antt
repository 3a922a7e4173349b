-- ===== src/Syshelper/Refinement.antt =====
-- syshelper/UdfpsHelper.cpp: the service as its clients see it. The abstract service knows who is
-- registered, and nothing of proxies, addresses and death links.
use mathlib.Core.Quot
use mathlib.Core.Quot.{Quot}
use android_device_realme_sa.Base.{
  Bool, Bool-cases, List, Option, [], ap, false, if◌then◌else◌, inl, inr, none, refl, some, sym,
  true, ℕ, ◌++◌, ◌∙◌, ◌∷◌, ◌≡◌,
}
use android_device_realme_sa.Syshelper.Types.{
  BinderStatus, Callback, Notice, ScopedAStatus, UdfpsHelper, ex_illegal_argument, ex_illegal_state,
  ex_null_pointer, ok, status_error, status_ok,
}
use android_device_realme_sa.Syshelper.UdfpsHelper
use android_device_realme_sa.Syshelper.UdfpsHelper.{is_dead_object_logged}
use android_device_realme_sa.Syshelper.Registry.{
  answered, register_callback-registered, registered, unregister_callback-registered,
}
use android_device_realme_sa.Syshelper.Members.{
  Members, elem-last, is_member, join, leave, without-last,
}

-- The abstract service: the members, the touch state, and who was told what, newest first.
pub record Registry : Type 0 where
  pub members : Members
  pub is_down : Bool
  pub calls : List Notice

abbrev pub view : UdfpsHelper → Registry
view s = record {
  members = Quot.mk (registered s);
  is_down = s.current_is_down_state;
  calls = s.calls;
}

-- A call of a client, with what the driver and the callback answer to it.
pub data Request : Type 0 where
  down up : Request
  register : ℕ → BinderStatus → ScopedAStatus → Option Callback → Request
  unregister : Option Callback → Request

unfoldable pub serve : Request → UdfpsHelper → ScopedAStatus × UdfpsHelper
unfolding UdfpsHelper.touch_down UdfpsHelper.touch_up UdfpsHelper.register_callback
    UdfpsHelper.unregister_callback
serve down s = UdfpsHelper.touch_down s
serve up s = UdfpsHelper.touch_up s
serve (register address linking reply c) s = UdfpsHelper.register_callback address linking reply c s
serve (unregister c) s = UdfpsHelper.unregister_callback c s

unfoldable pub serve_all : List Request → UdfpsHelper → List ScopedAStatus × UdfpsHelper
serve_all [] s = ([], s)
serve_all (q ∷ qs) s =
    let (answer, t) = serve q s in let (answers, u) = serve_all qs t in (answer ∷ answers, u)

-- What a call does to the abstract service, and what it answers.
unfoldable pub serve_registry : Request → Registry → ScopedAStatus × Registry
serve_registry down v = (ok, record v { is_down = true })
serve_registry up v = (ok, record v { is_down = false })
serve_registry (register address linking reply none) v = (ex_null_pointer, v)
serve_registry (register address (status_error e) reply (some c)) v = (ex_illegal_state, v)
serve_registry (register address status_ok reply (some c)) v = (
  ok,
  record v {
    members =
        if is_dead_object_logged reply
        then leave c.as_binder v.members
        else join c.as_binder v.members;
    calls = record { callback = c; is_down = v.is_down } ∷ v.calls;
  },
)
serve_registry (unregister none) v = (ex_null_pointer, v)
serve_registry (unregister (some c)) v = (
  if is_member c.as_binder v.members then ok else ex_illegal_argument,
  record v { members = leave c.as_binder v.members },
)

unfoldable pub serve_registry_all : List Request → Registry → List ScopedAStatus × Registry
serve_registry_all [] v = ([], v)
serve_registry_all (q ∷ qs) v =
    let (answer, w) = serve_registry q v in
    let (answers, x) = serve_registry_all qs w in (answer ∷ answers, x)

members-register :
    (reply : ScopedAStatus) (b : ℕ) (xs : List ℕ)
    → (if is_dead_object_logged reply then leave b (Quot.mk xs) else join b (Quot.mk xs))
      ≡ Quot.mk (answered reply b (xs ++ b ∷ []))
unfolding leave join
members-register reply b xs = elim (Bool-cases (is_dead_object_logged reply)) [
  | inl dead ↦ rw dead (Quot.sound (λ a. sym (without-last a b xs)))
  | inr alive ↦ rw alive (Quot.sound (λ a. sym (elem-last a b xs)))
]

pub serve-view :
    (q : Request) (s : UdfpsHelper)
    → serve_registry q (view s) ≡ ((serve q s).0, view (serve q s).1)
unfolding serve serve_registry leave is_member
serve-view down s = refl
serve-view up s = refl
serve-view (register address linking reply none) s = refl
serve-view (register address (status_error e) reply (some c)) s = refl
serve-view (register address status_ok reply (some c)) s =
    let (result, list, calls, state) = (register_callback-registered address reply s).2 c in
    let members = members-register reply c.as_binder (registered s) ∙ ap Quot.mk (sym list) in
    λ i. (sym result i, record { members = members i; is_down = sym state i; calls = sym calls i })
serve-view (unregister none) s = refl
serve-view (unregister (some c)) s =
    let (list, result, calls, state) = (unregister_callback-registered s).1 c in
    λ i. (
      sym result i,
      record { members = Quot.mk (sym list i); is_down = sym state i; calls = sym calls i },
    )

-- Over every history of calls the service answers each call as the abstract one does, and what its
-- clients see of it afterwards is the abstract state.
pub serve_all-view :
    (qs : List Request) (s : UdfpsHelper)
    → serve_registry_all qs (view s) ≡ ((serve_all qs s).0, view (serve_all qs s).1)
unfolding serve_all serve_registry_all
serve_all-view [] s = refl
serve_all-view (q ∷ qs) s = rw (serve-view q s) (
    ap (λ (o : List ScopedAStatus × Registry). ((serve q s).0 ∷ o.0, o.1))
      (serve_all-view qs (serve q s).1))
