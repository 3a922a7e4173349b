-- ===== src/Build/ReorderExamples.antt =====
-- reorder-libs.py on small lists.
use mathlib.Core.List.{Perm}
use android_device_realme_sa.Base.{List, [], refl, some, ℕ, ◌∷◌, ◌≡◌}
use android_device_realme_sa.Build.Reorder.{
  less, sort_section, strcoll, strcoll_extract_utils, unmarked,
}
use android_device_realme_sa.Build.ReorderFile.{reorder, strip_right}
use android_device_realme_sa.Build.Sorting.{IsLine, is_listed, line_key, strcoll_extract_utils-key}
use android_device_realme_sa.Build.Texts.{IsClean}
use android_device_realme_sa.Build.Rewriting.{file_text, reorder-file_text}
use android_device_realme_sa.Build.Sections.{IsSorted, sort_section-IsSorted}

-- The lines `# /`, a comment with a slash, `-a/b` and `a/c/d`.
abbrev comment_line : List ℕ
comment_line = 35 ∷ 32 ∷ 47 ∷ []

abbrev marked_line : List ℕ
marked_line = 45 ∷ 97 ∷ 47 ∷ 98 ∷ []

abbrev deeper_line : List ℕ
deeper_line = 97 ∷ 47 ∷ 99 ∷ 47 ∷ 100 ∷ []

comment-IsLine : IsLine comment_line
unfolding unmarked is_listed
comment-IsLine = record { text = (refl, (refl, (refl, tt))); not_empty = refl; listed = refl }

marked-IsLine : IsLine marked_line
unfolding unmarked is_listed
marked-IsLine = record { text = (refl, (refl, (refl, tt))); not_empty = refl; listed = refl }

deeper-IsLine : IsLine deeper_line
unfolding unmarked is_listed
deeper-IsLine = record {
  text = (refl, (refl, (refl, (refl, (refl, tt)))));
  not_empty = refl;
  listed = refl;
}

-- A file in a directory below comes first.
strcoll_extract_utils-key_example :
    strcoll_extract_utils deeper_line marked_line
    ≡ strcoll (line_key deeper_line) (line_key marked_line)
strcoll_extract_utils-key_example =
    strcoll_extract_utils-key deeper_line marked_line deeper-IsLine marked-IsLine

deeper_first : strcoll_extract_utils deeper_line marked_line ≡ less
unfolding strcoll_extract_utils
deeper_first = refl

sort_section-IsSorted_example :
    let sorted = sort_section (marked_line ∷ deeper_line ∷ comment_line ∷ []) in
    Perm sorted (marked_line ∷ deeper_line ∷ comment_line ∷ [])
    × IsSorted strcoll_extract_utils sorted
    × (sort_section sorted ≡ sorted)
sort_section-IsSorted_example =
    sort_section-IsSorted (marked_line ∷ deeper_line ∷ comment_line ∷ [])
      (marked-IsLine, (deeper-IsLine, (comment-IsLine, tt)))

-- `z` with a blank behind it and `b/c` in one section, `-a` in another, with spaces around.
reordered :
    reorder (some (122 ∷ 32 ∷ 10 ∷ 98 ∷ 47 ∷ 99 ∷ 10 ∷ 10 ∷ 32 ∷ 45 ∷ 97 ∷ 10 ∷ []))
    ≡ some (98 ∷ 47 ∷ 99 ∷ 10 ∷ 122 ∷ 10 ∷ 10 ∷ 45 ∷ 97 ∷ 10 ∷ [])
unfolding reorder
reordered = refl

-- Lines that name no directory may go round: `a` before `a!`, that before `a/b/c`, and that before `a`.
goes_round :
    (strcoll_extract_utils (97 ∷ []) (97 ∷ 33 ∷ []) ≡ less)
    × (strcoll_extract_utils (97 ∷ 33 ∷ []) (97 ∷ 47 ∷ 98 ∷ 47 ∷ 99 ∷ []) ≡ less)
    × (strcoll_extract_utils (97 ∷ 47 ∷ 98 ∷ 47 ∷ 99 ∷ []) (97 ∷ []) ≡ less)
unfolding strcoll_extract_utils
goes_round = (refl, refl, refl)

comment-IsClean : IsClean comment_line
unfolding strip_right
comment-IsClean = record { first = refl; last = refl; unbroken = (refl, (refl, (refl, tt))) }

marked-IsClean : IsClean marked_line
unfolding strip_right
marked-IsClean = record { first = refl; last = refl; unbroken = (refl, (refl, (refl, (refl, tt)))) }

deeper-IsClean : IsClean deeper_line
unfolding strip_right
deeper-IsClean = record {
  first = refl;
  last = refl;
  unbroken = (refl, (refl, (refl, (refl, (refl, tt)))));
}

-- Two sections, the first in the wrong order.
abbrev first_section : List (List ℕ)
first_section = marked_line ∷ deeper_line ∷ comment_line ∷ []

abbrev second_section : List (List ℕ)
second_section = deeper_line ∷ []

reorder-file_text_example :
    let reordered = file_text (sort_section first_section ∷ sort_section second_section ∷ []) in
    (reorder (some (file_text (first_section ∷ second_section ∷ []))) ≡ some reordered)
    × (reorder (some reordered) ≡ some reordered)
reorder-file_text_example =
    reorder-file_text first_section (second_section ∷ [])
      (
        record {
          not_empty = refl;
          clean = (marked-IsClean, (deeper-IsClean, (comment-IsClean, tt)));
        },
        (record { not_empty = refl; clean = (deeper-IsClean, tt) }, tt),
      )
      ((marked-IsLine, (deeper-IsLine, (comment-IsLine, tt))), ((deeper-IsLine, tt), tt))
