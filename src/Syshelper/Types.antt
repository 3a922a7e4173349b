-- ===== src/Syshelper/Types.antt =====
-- syshelper/UdfpsHelper.h, LinkedCallback.h: the service's data.
--
-- A linked callback is an object on the heap: `address` is its pointer, which is also the cookie of
-- its death link. `links` is the binder driver's list of death links of this service's recipient,
-- and `calls` the notifications sent to callbacks, newest first. What the binder driver answers is an
-- argument of each operation.
use android_device_realme_sa.Base.{Bool, List, map, ℕ}

-- ndk::ScopedAStatus
pub data ScopedAStatus : Type 0 where
  ok status_dead_object ex_null_pointer ex_illegal_state ex_illegal_argument : ScopedAStatus
  status_other ex_other : ℕ → ScopedAStatus

-- binder_status_t
pub data BinderStatus : Type 0 where
  status_ok : BinderStatus
  status_error : ℕ → BinderStatus

-- A proxy of IUdfpsHelperCallback; several proxies may stand for one binder object.
pub record Callback : Type 0 where
  pub proxy : ℕ
  pub as_binder : ℕ

pub record Linked : Type 0 where
  pub address : ℕ
  pub callback : Callback

pub record Link : Type 0 where
  pub binder : ℕ
  pub cookie : ℕ

pub record Notice : Type 0 where
  pub callback : Callback
  pub is_down : Bool

pub record UdfpsHelper : Type 0 where
  pub current_is_down_state : Bool
  pub callbacks : List Linked
  pub links : List Link
  pub calls : List Notice

abbrev pub binder_of : Linked → ℕ
binder_of l = l.callback.as_binder

abbrev pub link_of : Linked → Link
link_of l = record { binder = l.callback.as_binder; cookie = l.address }

abbrev pub addresses : List Linked → List ℕ
addresses = map λ l. l.address

abbrev pub cookies : List Link → List ℕ
cookies = map λ k. k.cookie

abbrev pub binders : List Linked → List ℕ
binders = map binder_of
