-- ===== src/Ifaa/Ids.antt =====
-- IFAAManagerImpl.java: the ids of the enrolled fingerprints.
use android_device_realme_sa.Base.{
  List, Option, [], ap, arith, get_or, get_or_else, length, length-append, map, none, refl, some,
  suc, zero, ℕ, ◌++◌, ◌-◌, ◌∙◌, ◌∷◌, ◌≡◌,
}
use android_device_realme_sa.Base.Int.{pos, ℤ}
use android_device_realme_sa.Ifaa.Manager.{get_id_list, ids_loop, put_id, zeros}

put_id-shift :
    (o : Option ℤ) (i : ℕ) (id : ℤ) (ids : List ℤ)
    → put_id o (suc i) (id ∷ ids) ≡ id ∷ put_id o i ids
put_id-shift none i id ids = refl
put_id-shift (some a) i id ids = refl

-- The loop leaves an entry alone that lies before its index.
ids_loop-shift :
    (n i : ℕ) (f : Option ℤ) (fs : List (Option ℤ)) (id : ℤ) (ids : List ℤ)
    → ids_loop n (suc i) (f ∷ fs) (id ∷ ids) ≡ id ∷ ids_loop n i fs ids
unfolding ids_loop
ids_loop-shift zero i f fs id ids = refl
ids_loop-shift (suc n) i f fs id ids =
    ap (ids_loop n (suc (suc i)) (f ∷ fs)) (put_id-shift (get_or fs i none) i id ids)
    ∙ ids_loop-shift n (suc i) f fs id (put_id (get_or fs i none) i ids)

abbrev pub id_of : Option ℤ → ℤ
id_of f = get_or_else f (pos 0)

ids_loop-all :
    (fs rest : List (Option ℤ)) (ids : List ℤ)
    → ids_loop (length fs) 0 (fs ++ rest) (zeros (length fs) ++ ids) ≡ map id_of fs ++ ids
unfolding ids_loop
ids_loop-all [] rest ids = refl
ids_loop-all (none ∷ fs) rest ids =
    ids_loop-shift (length fs) 0 none (fs ++ rest) (pos 0) (zeros (length fs) ++ ids)
    ∙ ap (λ is. pos 0 ∷ is) (ids_loop-all fs rest ids)
ids_loop-all (some a ∷ fs) rest ids =
    ids_loop-shift (length fs) 0 (some a) (fs ++ rest) a (zeros (length fs) ++ ids)
    ∙ ap (λ is. a ∷ is) (ids_loop-all fs rest ids)

zeros-snoc : (n : ℕ) → zeros (suc n) ≡ zeros n ++ pos 0 ∷ []
zeros-snoc zero = refl
zeros-snoc (suc n) = ap (λ is. pos 0 ∷ is) (zeros-snoc n)

ids_loop-snoc :
    (fs : List (Option ℤ)) (last : Option ℤ)
    → let whole = fs ++ last ∷ [] in
      ids_loop (length whole - 1) 0 whole (zeros (length whole)) ≡ map id_of fs ++ pos 0 ∷ []
ids_loop-snoc fs last =
    let turns : length (fs ++ last ∷ []) - 1 ≡ length fs =
      omega (arith, length-append fs (last ∷ [])) in
    let entries : length (fs ++ last ∷ []) ≡ suc (length fs) =
      omega (arith, length-append fs (last ∷ [])) in
    (λ i. ids_loop (turns i) 0 (fs ++ last ∷ []) ((ap zeros entries ∙ zeros-snoc (length fs)) i))
    ∙ ids_loop-all fs (last ∷ []) (pos 0 ∷ [])

-- getIDList gives as many ids as there are fingerprints, the id of each but the last; the loop stops
-- before the last one, whose place holds 0 whatever its id is.
pub get_id_list-last :
    (fs : List (Option ℤ)) (last : Option ℤ)
    → get_id_list (some (some (fs ++ last ∷ []))) (pos 1) ≡ some (map id_of fs ++ pos 0 ∷ [])
unfolding get_id_list
get_id_list-last [] last = ap some (ids_loop-snoc [] last)
get_id_list-last (f ∷ fs) last = ap some (ids_loop-snoc (f ∷ fs) last)
