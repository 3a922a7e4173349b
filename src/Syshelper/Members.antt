-- ===== src/Syshelper/Members.antt =====
-- syshelper/: who is registered, with the order of the list and its repetitions forgotten.
use mathlib.Core.Quot
use mathlib.Core.Quot.{Quot, Quot-set}
use android_device_realme_sa.Base.{
  Bool, List, [], arith, elem, not, refl, sym, ℕ, ◌&&◌, ◌++◌, ◌==◌, ◌∙◌, ◌∷◌, ◌≡◌,
}
use android_device_realme_sa.Syshelper.Registry.{without}

abbrev pub SameMembers : List ℕ → List ℕ → Type 0
SameMembers xs ys = (b : ℕ) → elem b xs ≡ elem b ys

abbrev pub Members : Type 0
Members = Quot SameMembers

unfoldable pub is_member : ℕ → Members → Bool
is_member b = Quot.lift (hlevel) (elem b) (λ xs ys h. h b)

pub cons-SameMembers : (x : ℕ) (xs ys : List ℕ) → SameMembers xs ys → SameMembers (x ∷ xs) (x ∷ ys)
cons-SameMembers x xs ys h b = rw (h b)

elem-without_other : (b c : ℕ) (xs : List ℕ) → elem b (without c xs) ≡ (not (b == c) && elem b xs)
elem-without_other b c [] = ground arith
elem-without_other b c (x ∷ xs) = ground (arith, elem-without_other b c xs)

pub without-SameMembers :
    (x : ℕ) (xs ys : List ℕ) → SameMembers xs ys → SameMembers (without x xs) (without x ys)
without-SameMembers x xs ys h b =
    elem-without_other b x xs ∙ rw (h b) (sym (elem-without_other b x ys))

unfoldable pub join : ℕ → Members → Members
join x =
    Quot.lift Quot-set (λ xs. Quot.mk (x ∷ xs)) (λ xs ys h. Quot.sound (cons-SameMembers x xs ys h))

unfoldable pub leave : ℕ → Members → Members
leave x =
    Quot.lift Quot-set (λ xs. Quot.mk (without x xs))
      (λ xs ys h. Quot.sound (without-SameMembers x xs ys h))

pub elem-last : (b c : ℕ) (xs : List ℕ) → elem b (xs ++ c ∷ []) ≡ elem b (c ∷ xs)
elem-last b c [] = refl
elem-last b c (x ∷ xs) = ground (arith, elem-last b c xs)

pub without-last :
    (b c : ℕ) (xs : List ℕ) → elem b (without c (xs ++ c ∷ [])) ≡ elem b (without c xs)
without-last b c xs =
    ground
      (arith, elem-without_other b c (xs ++ c ∷ []), elem-without_other b c xs, elem-last b c xs)
