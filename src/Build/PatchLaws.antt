-- ===== src/Build/PatchLaws.antt =====
-- shims/patch_elf.py: the loop on a binary that is given by its strings.
use mathlib.Core.List.{append_assoc}
use android_device_realme_sa.Base.{
  ==_refl, All, Bool-cases, List, Option, [], ap, arith, drop-append, drop-length, false,
  if◌then◌else◌, inl, inr, length, length-append, ltb, map, map_option, none, refl, some, suc, sym,
  take-append, true, zero, ℕ, ◌++◌, ◌+◌, ◌<◌, ◌==◌, ◌∙◌, ◌∷◌, ◌≡◌, ◌≤◌,
}
use android_device_realme_sa.Build.Swap.{swap-none}
use android_device_realme_sa.Build.PatchElf.{
  Outcome, assign_slice, find, find_first, patch_elf, patch_file, patch_loop, returned,
}
use android_device_realme_sa.Build.Strings.{
  IsName, Search, absent, ends_with, found, occurrences, swap, text, text-Search,
}

assign_slice-middle :
    (xs ys zs new : List ℕ)
    → assign_slice (length xs) (length ys) new (xs ++ (ys ++ zs)) ≡ xs ++ new ++ zs
unfolding assign_slice
assign_slice-middle xs ys zs new =
    let rest = drop-append xs (ys ++ zs) (length ys) ∙ drop-length ys zs in
    λ i. take-append xs (ys ++ zs) i ++ new ++ rest i

find-rest :
    (needle done rest : List ℕ)
    → find needle (done ++ rest) (length done)
      ≡ map_option (λ i. length done + i) (find_first needle rest)
unfolding find
find-rest needle done rest = rw (drop-length done rest) refl

module _ (fuel : ℕ) (needle bytes : List ℕ) (idx count : ℕ) (contents : List ℕ) where
  loop-absent :
      find needle contents idx ≡ none
      → patch_loop (suc fuel) needle bytes idx count contents ≡ some (contents, count)
  unfolding patch_loop
  loop-absent e = rw (e, patch_loop) refl

  loop-found :
      (i : ℕ)
      → find needle contents idx ≡ some i
      → patch_loop (suc fuel) needle bytes idx count contents
        ≡ patch_loop fuel needle bytes
            (i + length needle)
            (count + 1)
            (assign_slice i (length needle) bytes contents)
  unfolding patch_loop
  loop-found i e = rw (e, patch_loop) refl

module _ (old new tail : List ℕ) (old_name : IsName old) (same_length : length old ≡ length new)
    (tail_name : IsName tail) where
  next_index :
      (done a : List ℕ)
      → (length done + length a) + length (old ++ 0 ∷ []) ≡ length ((done ++ a) ++ (new ++ 0 ∷ []))
  next_index done a = omega (
    arith,
    same_length,
    length-append done a,
    length-append old (0 ∷ []),
    length-append new (0 ∷ []),
    length-append (done ++ a) (new ++ 0 ∷ []),
  )

  regrouped :
      (done a rest patched : List ℕ)
      → patched ≡ (a ++ (new ++ 0 ∷ [])) ++ rest
      → ((done ++ a) ++ (new ++ 0 ∷ [])) ++ rest ≡ done ++ patched
  regrouped done a rest patched e =
      ap (λ xs. xs ++ rest) (append_assoc done a (new ++ 0 ∷ []))
      ∙ append_assoc done (a ++ (new ++ 0 ∷ [])) rest
      ∙ ap (λ xs. done ++ xs) (sym e)

  next_data :
      (done a now rest : List ℕ)
      → now ≡ (a ++ (old ++ 0 ∷ [])) ++ rest
      → assign_slice (length done + length a) (length (old ++ 0 ∷ [])) (new ++ 0 ∷ []) (done ++ now)
        ≡ ((done ++ a) ++ (new ++ 0 ∷ [])) ++ rest
  next_data done a now rest e =
      let whole : done ++ now ≡ (done ++ a) ++ ((old ++ 0 ∷ []) ++ rest) =
        ap (λ xs. done ++ xs) (e ∙ append_assoc a (old ++ 0 ∷ []) rest)
        ∙ sym (append_assoc done a ((old ++ 0 ∷ []) ++ rest)) in
      (λ i.
        assign_slice (sym (length-append done a) i) (length (old ++ 0 ∷ [])) (new ++ 0 ∷ [])
          (whole i))
      ∙ assign_slice-middle (done ++ a) (old ++ 0 ∷ []) rest (new ++ 0 ∷ [])

  -- The loop, from an offset at which the rest of the data is a list of strings.
  patch_loop-text :
      (fuel : ℕ) (done : List ℕ) (ss : List (List ℕ)) (count : ℕ)
      → All IsName ss
      → occurrences old ss < fuel
      → patch_loop fuel (old ++ 0 ∷ []) (new ++ 0 ∷ []) (length done) count (done ++ text ss tail)
        ≡ some (done ++ text (map (swap old new) ss) tail, count + occurrences old ss)
  patch_loop-text zero done ss count k enough = absurd (omega arith)
  patch_loop-text (suc fuel) done ss count k enough =
      by_search (patch_loop-text fuel) (text-Search old new tail old_name ss k tail_name)
    where
      by_search :
          ((done' : List ℕ) (ss' : List (List ℕ)) (count' : ℕ)
            → All IsName ss'
            → occurrences old ss' < fuel
            → patch_loop fuel
                (old ++ 0 ∷ [])
                (new ++ 0 ∷ [])
                (length done')
                count'
                (done' ++ text ss' tail)
              ≡ some (done' ++ text (map (swap old new) ss') tail, count' + occurrences old ss'))
          → Search old new tail old_name
              (text ss tail)
              (text (map (swap old new) ss) tail)
              (occurrences old ss)
          → patch_loop
              (suc fuel)
              (old ++ 0 ∷ [])
              (new ++ 0 ∷ [])
              (length done)
              count
              (done ++ text ss tail)
            ≡ some (done ++ text (map (swap old new) ss) tail, count + occurrences old ss)
      by_search later (absent f e z) =
          let counted : count ≡ count + occurrences old ss = omega (arith, z) in
          loop-absent fuel _ _ _ count _ (find-rest _ done _ ∙ ap (map_option _) f)
          ∙ (λ i. some (done ++ sym e i, counted i))
      by_search later (found a ss' k' f e e' z) =
          let counted : (count + 1) + occurrences old ss' ≡ count + occurrences old ss =
            omega (arith, z) in
          loop-found fuel _ _ _ count _ (length done + length a)
            (find-rest _ done _ ∙ ap (map_option _) f)
          ∙ (λ i.
              patch_loop fuel (old ++ 0 ∷ []) (new ++ 0 ∷ []) (next_index done a i) (count + 1)
                (next_data done a (text ss tail) (text ss' tail) e i))
          ∙ later ((done ++ a) ++ (new ++ 0 ∷ [])) ss' (count + 1) k' (omega (arith, z, enough))
          ∙ (λ i. some (regrouped done a _ _ e' i, counted i))

occurrences-le :
    (old tail : List ℕ) (ss : List (List ℕ)) → occurrences old ss ≤ length (text ss tail)
occurrences-le old tail [] = omega arith
occurrences-le old tail (s ∷ ss) = elim (Bool-cases (ends_with old s)) [
  | inl e ↦ rw e (omega (arith, length-append s (0 ∷ text ss tail), occurrences-le old tail ss))
  | inr e ↦ rw e (omega (arith, length-append s (0 ∷ text ss tail), occurrences-le old tail ss))
]

occurrences-none :
    (old new : List ℕ) (ss : List (List ℕ)) → occurrences old ss ≡ 0 → map (swap old new) ss ≡ ss
occurrences-none old new [] e = refl
occurrences-none old new (s ∷ ss) e = elim (Bool-cases (ends_with old s)) [
  | inl f ↦ absurd (ground arith)
  | inr f ↦
      let rest : occurrences old ss ≡ 0 = ground arith in
      λ i. swap-none old new s f i ∷ occurrences-none old new ss rest i
]

patch_file-loop :
    (old new contents patched : List ℕ) (n : ℕ)
    → patch_loop (suc (length contents)) (old ++ 0 ∷ []) (new ++ 0 ∷ []) 0 0 contents
      ≡ some (patched, 0 + n)
    → patch_file old new contents
      ≡ some (if n == 0 then (returned false, some contents) else (returned true, some patched))
unfolding patch_file
patch_file-loop old new contents patched n e =
    let whole : 0 + n ≡ n = omega arith in
    rw (e ∙ ap (λ k. some (patched, k)) whole, patch_file) refl

-- Where nothing was found, nothing was changed.
outcome-count :
    (contents patched : List ℕ) (n : ℕ)
    → (n ≡ 0 → patched ≡ contents)
    → let left : Outcome × Option (List ℕ) =
        if n == 0 then (returned false, some contents) else (returned true, some patched) in
      let right : Outcome × Option (List ℕ) = (returned (ltb 0 n), some patched) in left ≡ right
outcome-count contents patched zero h = λ i. (returned false, some (sym (h refl) i))
outcome-count contents patched (suc n) h = ground arith

-- The script on a binary that is given by its strings.
pub patch_elf-strings :
    (old_lib new_lib tail : List ℕ) (ss : List (List ℕ))
    → IsName old_lib
    → IsName tail
    → All IsName ss
    → length old_lib ≡ length new_lib
    → patch_elf old_lib new_lib (some (text ss tail))
      ≡ some (
        returned (ltb 0 (occurrences old_lib ss)),
        some (text (map (swap old_lib new_lib) ss) tail),
      )
unfolding patch_elf patch_file
patch_elf-strings old_lib new_lib tail ss name tail_name names same_length =
    let lengths : (length old_lib == length new_lib) ≡ true =
      ap (λ n. length old_lib == n) (sym same_length) ∙ ==_refl (length old_lib) in
    rw (lengths, patch_elf)
      (patch_file-loop old_lib new_lib (text ss tail) (text (map (swap old_lib new_lib) ss) tail)
          (occurrences old_lib ss)
          (patch_loop-text old_lib new_lib tail name same_length tail_name
            (suc (length (text ss tail))) [] ss 0 names
            (omega (arith, occurrences-le old_lib tail ss)))
        ∙ ap some (
            outcome-count (text ss tail) _ (occurrences old_lib ss)
              (λ e. ap (λ rs. text rs tail) (occurrences-none old_lib new_lib ss e))))
