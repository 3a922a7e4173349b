-- ===== src/Build/Sections.antt =====
-- reorder-libs.py: what the sort does to the lines of a section.
use mathlib.Core.List.{Perm}
use mathlib.Core.List.Perm
use android_device_realme_sa.Base.{
  All, Bool-cases, List, [], ap, arith, false, inl, inr, is_empty, refl, true, ℕ, ◌∙◌, ◌∷◌, ◌≡◌,
}
use android_device_realme_sa.Build.Reorder.{
  Sign, insert, is_less, sort, sort_section, strcoll, strcoll_extract_utils,
}
use android_device_realme_sa.Build.Sorting.{IsLine, line_key, strcoll_extract_utils-key}

module _ (compare_lines : List ℕ → List ℕ → Sign) where
  -- No line is less than one before it.
  abbrev pub IsSorted : List (List ℕ) → Type 0
  IsSorted [] = Unit
  IsSorted (x ∷ xs) = All (λ y. is_less (compare_lines y x) ≡ false) xs × IsSorted xs

  insert-Perm : (x : List ℕ) (ys : List (List ℕ)) → Perm (insert compare_lines x ys) (x ∷ ys)
  unfolding insert
  insert-Perm x [] = Perm.rfl
  insert-Perm x (y ∷ ys) = elim (Bool-cases (is_less (compare_lines y x))) [
    | inl e ↦ rw e (Perm.trans (Perm.cons y (insert-Perm x ys)) (Perm.swap x y ys))
    | inr e ↦ rw e Perm.rfl
  ]

  sort-Perm : (xs : List (List ℕ)) → Perm (sort compare_lines xs) xs
  unfolding sort
  sort-Perm [] = Perm.rfl
  sort-Perm (x ∷ xs) =
      Perm.trans (insert-Perm x (sort compare_lines xs)) (Perm.cons x (sort-Perm xs))

  insert-first :
      (x : List ℕ) (ys : List (List ℕ))
      → All (λ y. is_less (compare_lines y x) ≡ false) ys
      → insert compare_lines x ys ≡ x ∷ ys
  unfolding insert
  insert-first x [] a = refl
  insert-first x (y ∷ ys) a = rw (a.0) refl

  sort-sorted : (xs : List (List ℕ)) → IsSorted xs → sort compare_lines xs ≡ xs
  unfolding sort
  sort-sorted [] k = refl
  sort-sorted (x ∷ xs) k = ap (insert compare_lines x) (sort-sorted xs k.1) ∙ insert-first x xs k.0

  insert-All :
      (P : List ℕ → Type 0) (x : List ℕ) (ys : List (List ℕ))
      → P x
      → All P ys
      → All P (insert compare_lines x ys)
  unfolding insert
  insert-All P x [] p a = (p, tt)
  insert-All P x (y ∷ ys) p a = elim (Bool-cases (is_less (compare_lines y x))) [
    | inl e ↦ rw e (a.0, insert-All P x ys p a.1)
    | inr e ↦ rw e (p, a)
  ]

  pub insert_not_empty :
      (x : List ℕ) (ys : List (List ℕ)) → is_empty (insert compare_lines x ys) ≡ false
  unfolding insert
  insert_not_empty x [] = refl
  insert_not_empty x (y ∷ ys) = ground arith

  pub sort-All :
      (P : List ℕ → Type 0) (xs : List (List ℕ)) → All P xs → All P (sort compare_lines xs)
  unfolding sort
  sort-All P [] a = tt
  sort-All P (x ∷ xs) a = insert-All P x (sort compare_lines xs) a.0 (sort-All P xs a.1)

  -- On lines where the comparison is a total preorder.
  module _ (P : List ℕ → Type 0)
      (asymmetric : (x y : List ℕ)
        → P x
        → P y
        → is_less (compare_lines x y) ≡ true
        → is_less (compare_lines y x) ≡ false)
      (transitive : (x y z : List ℕ)
        → P x
        → P y
        → P z
        → is_less (compare_lines y x) ≡ false
        → is_less (compare_lines z y) ≡ false
        → is_less (compare_lines z x) ≡ false) where
    behind :
        (x y : List ℕ) (zs : List (List ℕ))
        → P x
        → P y
        → All P zs
        → is_less (compare_lines y x) ≡ false
        → All (λ z. is_less (compare_lines z y) ≡ false) zs
        → All (λ z. is_less (compare_lines z x) ≡ false) zs
    behind x y [] p q a e b = tt
    behind x y (z ∷ zs) p q a e b = (transitive x y z p q a.0 e b.0, behind x y zs p q a.1 e b.1)

    insert-IsSorted :
        (x : List ℕ) (ys : List (List ℕ))
        → P x
        → All P ys
        → IsSorted ys
        → IsSorted (insert compare_lines x ys)
    unfolding insert
    insert-IsSorted x [] p a k = (tt, tt)
    insert-IsSorted x (y ∷ ys) p a k = elim (Bool-cases (is_less (compare_lines y x))) [
      | inl e ↦ rw e (
        insert-All (λ z. is_less (compare_lines z y) ≡ false) x ys (asymmetric y x a.0 p e) k.0,
        insert-IsSorted x ys p a.1 k.1,
      )
      | inr e ↦ rw e ((e, behind x y ys p a.0 a.1 e k.0), k)
    ]

    sort-IsSorted : (xs : List (List ℕ)) → All P xs → IsSorted (sort compare_lines xs)
    unfolding sort
    sort-IsSorted [] a = tt
    sort-IsSorted (x ∷ xs) a =
        insert-IsSorted x (sort compare_lines xs) a.0 (sort-All P xs a.1) (sort-IsSorted xs a.1)

strcoll_asymmetric : (s t : List ℕ) → is_less (strcoll s t) ≡ true → is_less (strcoll t s) ≡ false
unfolding strcoll
strcoll_asymmetric [] [] e = cc
strcoll_asymmetric [] (d ∷ ds) e = refl
strcoll_asymmetric (c ∷ cs) [] e = cc
strcoll_asymmetric (c ∷ cs) (d ∷ ds) e = ground (arith, strcoll_asymmetric cs ds)

strcoll_transitive :
    (s t u : List ℕ)
    → is_less (strcoll t s) ≡ false
    → is_less (strcoll u t) ≡ false
    → is_less (strcoll u s) ≡ false
unfolding strcoll
strcoll_transitive [] [] u e f = f
strcoll_transitive [] (d ∷ ds) [] e f = cc
strcoll_transitive [] (d ∷ ds) (b ∷ bs) e f = refl
strcoll_transitive (c ∷ cs) [] u e f = cc
strcoll_transitive (c ∷ cs) (d ∷ ds) [] e f = cc
strcoll_transitive (c ∷ cs) (d ∷ ds) (b ∷ bs) e f = ground (arith, strcoll_transitive cs ds bs)

lines_asymmetric :
    (x y : List ℕ)
    → IsLine x
    → IsLine y
    → is_less (strcoll_extract_utils x y) ≡ true
    → is_less (strcoll_extract_utils y x) ≡ false
lines_asymmetric x y k l e =
    rw (strcoll_extract_utils-key y x l k)
      (strcoll_asymmetric (line_key x) (line_key y) (rw (strcoll_extract_utils-key x y k l) at e))

lines_transitive :
    (x y z : List ℕ)
    → IsLine x
    → IsLine y
    → IsLine z
    → is_less (strcoll_extract_utils y x) ≡ false
    → is_less (strcoll_extract_utils z y) ≡ false
    → is_less (strcoll_extract_utils z x) ≡ false
lines_transitive x y z k l m e f = rw (strcoll_extract_utils-key z x m k) (
    strcoll_transitive (line_key x) (line_key y) (line_key z)
      (rw (strcoll_extract_utils-key y x l k) at e) (rw (strcoll_extract_utils-key z y m l) at f))

-- A section whose lines are entries in some directory, or comments that end with no blank and whose first
-- slash, if any, stands behind a blank, comes out with the same lines, none of them less than one
-- before it, and a second run of the sort changes nothing.
pub sort_section-IsSorted :
    (ls : List (List ℕ))
    → All IsLine ls
    → let sorted = sort_section ls in
      Perm sorted ls × IsSorted strcoll_extract_utils sorted × (sort_section sorted ≡ sorted)
unfolding sort_section
sort_section-IsSorted ls a =
    let k = sort-IsSorted strcoll_extract_utils IsLine lines_asymmetric lines_transitive ls a in
    (
      sort-Perm strcoll_extract_utils ls,
      k,
      sort-sorted strcoll_extract_utils (sort strcoll_extract_utils ls) k,
    )
