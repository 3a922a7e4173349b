-- ===== src/Build/Reorder.antt =====
-- reorder-libs.py: the order of the lines of proprietary-files.txt.
--
-- A text is the list of its character codes. In the locale C, which the script sets, strcoll compares
-- by these codes.
use android_device_realme_sa.Base.{
  Bool, List, Option, [], drop, elem, false, get_or_else, if◌then◌else◌, is_empty, ltb, none, not,
  some, true, ℕ, ◌&&◌, ◌++◌, ◌==◌, ◌||◌, ◌∷◌,
}
use android_device_realme_sa.Build.PatchElf.{starts_with}
use android_device_realme_sa.Build.Sha1Sums.{begins_with}

-- The sign of a comparison.
pub data Sign : Type 0 where
  less same greater : Sign

unfoldable pub strcoll : List ℕ → List ℕ → Sign
strcoll [] [] = same
strcoll [] (d ∷ ds) = less
strcoll (c ∷ cs) [] = greater
strcoll (c ∷ cs) (d ∷ ds) =
    let rest = strcoll cs ds in if ltb c d then less else if ltb d c then greater else rest

-- What stands before the last slash, if there is one.
unfoldable pub before_last : List ℕ → Option (List ℕ)
before_last [] = none
before_last (c ∷ cs) = elim (before_last cs) [
  | some head ↦ some (c ∷ head)
  | none ↦ if c == 47 then some [] else none
]

-- string.rsplit("/", 1)[0] + "/"
unfoldable pub directory : List ℕ → List ℕ
unfolding before_last
directory s = get_or_else (before_last s) s ++ 47 ∷ []

-- string1 == string2
unfoldable pub text_eq : List ℕ → List ℕ → Bool
text_eq [] [] = true
text_eq [] (d ∷ ds) = false
text_eq (c ∷ cs) [] = false
text_eq (c ∷ cs) (d ∷ ds) = (c == d) && text_eq cs ds

-- string.removeprefix('-')
unfoldable pub unmarked : List ℕ → List ℕ
unfolding begins_with
unmarked s = if begins_with 45 s then drop 1 s else s

-- strcoll_extract_utils, from the test for directories on.
unfoldable pub compare_entries : List ℕ → List ℕ → Sign
unfolding strcoll directory text_eq starts_with
compare_entries s t =
    if not (elem 47 s) && not (elem 47 t)
    then strcoll s t
    else if text_eq (directory s) (directory t)
    then strcoll s t
    else if starts_with (directory t) (directory s)
    then less
    else if starts_with (directory s) (directory t)
    then greater
    else strcoll s t

unfoldable pub strcoll_extract_utils : List ℕ → List ℕ → Sign
unfolding compare_entries unmarked
strcoll_extract_utils s t =
    if is_empty s || is_empty t then strcoll s t else compare_entries (unmarked s) (unmarked t)

-- cmp_to_key asks whether one line is less than the other.
abbrev pub is_less : Sign → Bool
is_less less = true
is_less same = false
is_less greater = false

-- section_list.sort: the stable sort, by insertion. The sort of Python gives the same list wherever the
-- comparison is a total preorder.
module _ (compare_lines : List ℕ → List ℕ → Sign) where
  unfoldable pub insert : List ℕ → List (List ℕ) → List (List ℕ)
  insert x [] = x ∷ []
  insert x (y ∷ ys) =
      let rest = insert x ys in if is_less (compare_lines y x) then y ∷ rest else x ∷ y ∷ ys

  unfoldable pub sort : List (List ℕ) → List (List ℕ)
  unfolding insert
  sort [] = []
  sort (x ∷ xs) = insert x (sort xs)

unfoldable pub sort_section : List (List ℕ) → List (List ℕ)
unfolding sort strcoll_extract_utils
sort_section = sort strcoll_extract_utils
