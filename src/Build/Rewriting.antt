-- ===== src/Build/Rewriting.antt =====
-- reorder-libs.py: what the script writes for a file of sections.
use mathlib.Core.List.{append_assoc, append-nil}
use android_device_realme_sa.Base.{
  All, List, [], ap, false, map, refl, some, sym, ℕ, ◌++◌, ◌∙◌, ◌∷◌, ◌≡◌,
}
use android_device_realme_sa.Build.Reorder.{sort, sort_section, strcoll_extract_utils}
use android_device_realme_sa.Build.Sections.{insert_not_empty, sort-All, sort_section-IsSorted}
use android_device_realme_sa.Build.ReorderFile.{
  join_with, reorder, reorder_section, split_lines, split_sections, strip,
}
use android_device_realme_sa.Build.Sorting.{IsLine}
use android_device_realme_sa.Build.Trim.{IsTrim, join-IsTrim, strip-IsTrim}
use android_device_realme_sa.Build.Texts.{
  IsClean, IsSection, glue, join-cons, join-one, section_text, split_lines-section,
  split_sections-section,
}

-- A file: its sections with an empty line between them, and a newline at the end.
abbrev pub file_text : List (List (List ℕ)) → List ℕ
file_text ss = join_with (10 ∷ 10 ∷ []) (map section_text ss) ++ 10 ∷ []

clean-IsTrim : (ls : List (List ℕ)) → All IsClean ls → All IsTrim ls
clean-IsTrim [] k = tt
clean-IsTrim (l ∷ ls) k = (((k.0).first, (k.0).last), clean-IsTrim ls k.1)

map-strip : (ls : List (List ℕ)) → All IsClean ls → map strip ls ≡ ls
map-strip [] k = refl
map-strip (l ∷ ls) k = λ i. strip-IsTrim l ((k.0).first, (k.0).last) i ∷ map-strip ls k.1 i

section-IsTrim : (s : List (List ℕ)) → IsSection s → IsTrim (section_text s)
section-IsTrim [] k = cc (k.not_empty)
section-IsTrim (l ∷ ls) k = join-IsTrim (10 ∷ []) l ls (clean-IsTrim (l ∷ ls) k.clean)

sort_section-IsSection : (s : List (List ℕ)) → IsSection s → IsSection (sort_section s)
unfolding sort_section sort
sort_section-IsSection [] k = k
sort_section-IsSection (l ∷ ls) k = record {
  not_empty = insert_not_empty strcoll_extract_utils l (sort strcoll_extract_utils ls);
  clean = sort-All strcoll_extract_utils IsClean (l ∷ ls) k.clean;
}

-- A section in the file, with what follows it there.
reorder_section-section :
    (s : List (List ℕ)) (end : List ℕ)
    → IsSection s
    → ((m : List ℕ) → glue m (split_lines end) ≡ m ∷ [])
    → reorder_section (section_text s ++ end) ≡ section_text (sort_section s)
unfolding reorder_section
reorder_section-section [] end k f = cc (k.not_empty)
reorder_section-section (l ∷ ls) end k f =
    ap (λ m. section_text (sort_section m))
      (ap (map strip) (split_lines-section l ls end k.clean f) ∙ map-strip (l ∷ ls) k.clean)

-- The parts of a file: the newline at its end goes to the last section.
parts : List (List ℕ) → List (List (List ℕ)) → List (List ℕ)
parts s [] = (section_text s ++ 10 ∷ []) ∷ []
parts s (t ∷ ss) = section_text s ∷ parts t ss

split-section :
    (s : List (List ℕ)) (r : List ℕ)
    → IsSection s
    → split_sections false (section_text s ++ r) ≡ glue (section_text s) (split_sections false r)
split-section [] r k = cc (k.not_empty)
split-section (l ∷ ls) r k = split_sections-section l ls r k.clean

split-blank : (t : List ℕ) → split_sections false (10 ∷ 10 ∷ t) ≡ [] ∷ split_sections false t
unfolding split_sections
split-blank t = refl

split-end : split_sections false (10 ∷ []) ≡ (10 ∷ []) ∷ []
unfolding split_sections
split-end = refl

file_text-cons :
    (s t : List (List ℕ)) (ss : List (List (List ℕ)))
    → file_text (s ∷ t ∷ ss) ≡ section_text s ++ (10 ∷ 10 ∷ file_text (t ∷ ss))
file_text-cons s t ss =
    let later = join_with (10 ∷ 10 ∷ []) (map section_text (t ∷ ss)) in
    ap (λ u. u ++ 10 ∷ [])
      (join-cons (10 ∷ 10 ∷ []) (section_text s) (section_text t) (map section_text ss))
    ∙ append_assoc (section_text s) (10 ∷ 10 ∷ later) (10 ∷ [])

split_sections-file :
    (s : List (List ℕ)) (ss : List (List (List ℕ)))
    → All IsSection (s ∷ ss)
    → split_sections false (file_text (s ∷ ss)) ≡ parts s ss
unfolding parts
split_sections-file s [] k =
    ap (λ u. split_sections false (u ++ 10 ∷ [])) (join-one (10 ∷ 10 ∷ []) (section_text s))
    ∙ split-section s (10 ∷ []) k.0
    ∙ ap (glue (section_text s)) split-end
split_sections-file s (t ∷ ss) k =
    ap (split_sections false) (file_text-cons s t ss)
    ∙ split-section s (10 ∷ 10 ∷ file_text (t ∷ ss)) k.0
    ∙ ap (glue (section_text s))
        (split-blank (file_text (t ∷ ss)) ∙ ap (λ ps. [] ∷ ps) (split_sections-file t ss k.1))
    ∙ ap (λ u. u ∷ parts t ss) (append-nil (section_text s))

-- A section is read back whether the newline at the end of the file is with it or not.
lines-newline : (m : List ℕ) → glue m (split_lines (10 ∷ [])) ≡ m ∷ []
unfolding split_lines
lines-newline m = ap (λ u. u ∷ []) (append-nil m)

lines-nothing : (m : List ℕ) → glue m (split_lines []) ≡ m ∷ []
unfolding split_lines
lines-nothing m = refl

map-reorder_section :
    (s : List (List ℕ)) (ss : List (List (List ℕ)))
    → All IsSection (s ∷ ss)
    → map reorder_section (parts s ss) ≡ map section_text (map sort_section (s ∷ ss))
unfolding parts
map-reorder_section s [] k =
    ap (λ u. u ∷ []) (reorder_section-section s (10 ∷ []) k.0 lines-newline)
map-reorder_section s (t ∷ ss) k =
    let first =
      ap reorder_section (sym (append-nil (section_text s)))
      ∙ reorder_section-section s [] k.0 lines-nothing in
    λ i. first i ∷ map-reorder_section t ss k.1 i

sections-IsTrim :
    (ss : List (List (List ℕ)))
    → All IsSection ss
    → All IsTrim (map section_text (map sort_section ss))
sections-IsTrim [] k = tt
sections-IsTrim (s ∷ ss) k =
    (section-IsTrim (sort_section s) (sort_section-IsSection s k.0), sections-IsTrim ss k.1)

reorder-sorted :
    (s : List (List ℕ)) (ss : List (List (List ℕ)))
    → All IsSection (s ∷ ss)
    → reorder (some (file_text (s ∷ ss))) ≡ some (file_text (map sort_section (s ∷ ss)))
unfolding reorder
reorder-sorted s ss k =
    let texts = map section_text (map sort_section (s ∷ ss)) in
    let ordered =
      ap (map reorder_section) (split_sections-file s ss k) ∙ map-reorder_section s ss k in
    let (first, rest) = sections-IsTrim (s ∷ ss) k in
    ap (λ ps. some (strip (join_with (10 ∷ 10 ∷ []) ps) ++ 10 ∷ [])) ordered
    ∙ ap (λ u. some (u ++ 10 ∷ []))
        (strip-IsTrim (join_with (10 ∷ 10 ∷ []) texts) (
          join-IsTrim (10 ∷ 10 ∷ []) (section_text (sort_section s))
            (map section_text (map sort_section ss)) (first, rest)))

sort_sections_again :
    (ss : List (List (List ℕ)))
    → All (All IsLine) ss
    → map sort_section (map sort_section ss) ≡ map sort_section ss
sort_sections_again [] k = refl
sort_sections_again (s ∷ ss) k =
    let (same_lines, sorted, again) = sort_section-IsSorted s k.0 in
    λ i. again i ∷ sort_sections_again ss k.1 i

sort_sections-IsSection :
    (ss : List (List (List ℕ))) → All IsSection ss → All IsSection (map sort_section ss)
sort_sections-IsSection [] k = tt
sort_sections-IsSection (s ∷ ss) k = (sort_section-IsSection s k.0, sort_sections-IsSection ss k.1)

-- A file of sections, each of them with at least one line, whose lines are entries in some directory, or
-- comments whose first slash, if any, stands behind a blank, all with no line break inside and no blank
-- at their ends, comes out with the same sections in the same order, each sorted; and a second run of
-- the script leaves the file as it is.
pub reorder-file_text :
    (s : List (List ℕ)) (ss : List (List (List ℕ)))
    → All IsSection (s ∷ ss)
    → All (All IsLine) (s ∷ ss)
    → let reordered = file_text (map sort_section (s ∷ ss)) in
      (reorder (some (file_text (s ∷ ss))) ≡ some reordered)
      × (reorder (some reordered) ≡ some reordered)
reorder-file_text s ss k l =
    let k' = sort_sections-IsSection (s ∷ ss) k in
    (
      reorder-sorted s ss k,
      reorder-sorted (sort_section s) (map sort_section ss) k'
          ∙ ap (λ us. some (file_text us)) (sort_sections_again (s ∷ ss) l),
    )
