-- ===== src/Syshelper/LinkedCallback.antt =====
-- syshelper/LinkedCallback.cpp: an object that is linked to the death of its callback.
--
-- The service outlives every linked callback (LinkedCallback.h), so service() is the service itself.
use android_device_realme_sa.Base.{
  List, Option, [], if◌then◌else◌, none, some, ℕ, ◌&&◌, ◌++◌, ◌==◌, ◌∷◌,
}
use android_device_realme_sa.Syshelper.Types.{
  BinderStatus, Callback, Link, Linked, link_of, status_error, status_ok,
}

-- LinkedCallback::Make: the new object, if the driver accepts the death link. An object that could
-- not be linked is destroyed with no callback set, so its destructor does nothing.
unfoldable pub make : ℕ → BinderStatus → Callback → List Link → Option Linked × List Link
make address (status_error e) callback links = (none, links)
make address status_ok callback links =
    let linked : Linked = record { address = address; callback = callback } in
    (some linked, links ++ link_of linked ∷ [])

-- AIBinder_unlinkToDeath takes one link with this binder and cookie away, if there is one.
unfoldable pub unlink_to_death : Link → List Link → List Link
unlink_to_death l [] = []
unlink_to_death l (k ∷ ks) =
    if (k.binder == l.binder) && (k.cookie == l.cookie) then ks else k ∷ unlink_to_death l ks

-- ~LinkedCallback of each object of a list; a failed unlink is only logged.
unfoldable pub destroy : List Linked → List Link → List Link
destroy [] links = links
destroy (l ∷ ls) links = destroy ls (unlink_to_death (link_of l) links)

-- The cookie of a death notification is cast back to the object: `none` if none is there.
unfoldable pub find_linked : ℕ → List Linked → Option Linked
find_linked cookie [] = none
find_linked cookie (l ∷ ls) = if l.address == cookie then some l else find_linked cookie ls
