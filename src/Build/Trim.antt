-- ===== src/Build/Trim.antt =====
-- reorder-libs.py: texts that strip() leaves as they are.
use android_device_realme_sa.Base.{
  All, List, [], ap, arith, false, get_or, is_empty, refl, subst, sym, ℕ, ◌++◌, ◌∙◌, ◌∷◌, ◌≡◌,
}
use android_device_realme_sa.Build.ReorderFile.{is_space, join_with, strip, strip_left, strip_right}
use android_device_realme_sa.Build.Texts.{join-cons, join-one}

-- No blank at either end.
abbrev pub IsTrim : List ℕ → Type 0
IsTrim t = (is_space (get_or t 0 32) ≡ false) × (strip_right t ≡ t)

pub strip-IsTrim : (t : List ℕ) → IsTrim t → strip t ≡ t
unfolding strip
strip-IsTrim t k = ap strip_right (left t k.0) ∙ k.1
  where
    left : (t : List ℕ) → is_space (get_or t 0 32) ≡ false → strip_left t ≡ t
    left [] e = refl
    left (c ∷ cs) e = rw e refl

trim_not_empty : (t : List ℕ) → IsTrim t → is_empty t ≡ false
trim_not_empty [] k = cc (k.0)
trim_not_empty (c ∷ cs) k = refl

append_not_empty : (w r : List ℕ) → is_empty r ≡ false → is_empty (w ++ r) ≡ false
append_not_empty [] r e = e
append_not_empty (c ∷ w) r e = refl

first-append :
    (p r : List ℕ) → is_space (get_or p 0 32) ≡ false → is_space (get_or (p ++ r) 0 32) ≡ false
first-append [] r e = cc e
first-append (c ∷ p) r e = e

strip_right-append :
    (w r : List ℕ) → is_empty r ≡ false → strip_right r ≡ r → strip_right (w ++ r) ≡ w ++ r
unfolding strip_right
strip_right-append [] r e k = k
strip_right-append (c ∷ w) r e k =
    let rest : strip_right (w ++ r) ≡ w ++ r = strip_right-append w r e k in
    rw (rest, append_not_empty w r e) (ground arith)

pub join-IsTrim :
    (separator p : List ℕ) (ps : List (List ℕ))
    → All IsTrim (p ∷ ps)
    → IsTrim (join_with separator (p ∷ ps))
join-IsTrim separator p [] k = subst IsTrim (sym (join-one separator p)) k.0
join-IsTrim separator p (q ∷ qs) k =
    let later = join_with separator (q ∷ qs) in
    let rest = join-IsTrim separator q qs k.1 in
    let some_left = trim_not_empty later rest in
    subst IsTrim (sym (join-cons separator p q qs)) (
      first-append p (separator ++ later) k.0.0,
      strip_right-append p (separator ++ later) (append_not_empty separator later some_left)
          (strip_right-append separator later some_left rest.1),
    )
