-- ===== src/Build/ReorderFile.antt =====
-- reorder-libs.py: the file from its text to its text.
use android_device_realme_sa.Base.{
  Bool, List, Option, [], elem, false, if◌then◌else◌, is_empty, leb, map, none, some, true, ℕ, ◌&&◌,
  ◌++◌, ◌==◌, ◌||◌, ◌∷◌,
}
use android_device_realme_sa.Build.Sha1Sums.{begins_with}
use android_device_realme_sa.Build.Reorder.{sort_section}

-- A character in front of the first of some texts.
abbrev pub push : ℕ → List (List ℕ) → List (List ℕ)
push c [] = (c ∷ []) ∷ []
push c (s ∷ ss) = (c ∷ s) ∷ ss

-- f.read().split("\n\n"); `skip` is set on the second newline of a separator.
unfoldable pub split_sections : (skip : Bool) → List ℕ → List (List ℕ)
unfolding begins_with
split_sections skip [] = [] ∷ []
split_sections true (c ∷ cs) = split_sections false cs
split_sections false (c ∷ cs) =
    let here = split_sections false cs in
    let behind = split_sections true cs in
    if (c == 10) && begins_with 10 cs then [] ∷ behind else push c here

-- The characters that end a line for splitlines().
abbrev pub is_line_break : ℕ → Bool
is_line_break c = elem c (10 ∷ 11 ∷ 12 ∷ 13 ∷ 28 ∷ 29 ∷ 30 ∷ 133 ∷ 8232 ∷ 8233 ∷ [])

-- section.splitlines(); in text mode a file has no carriage return before a newline.
unfoldable pub split_lines : List ℕ → List (List ℕ)
split_lines [] = []
split_lines (c ∷ cs) =
    let rest = split_lines cs in if is_line_break c then [] ∷ rest else push c rest

-- The characters that strip() removes.
abbrev pub is_space : ℕ → Bool
is_space c =
    (leb 9 c && leb c 13)
    || (leb 28 c && leb c 32)
    || (leb 8192 c && leb c 8202)
    || elem c (133 ∷ 160 ∷ 5760 ∷ 8232 ∷ 8233 ∷ 8239 ∷ 8287 ∷ 12288 ∷ [])

unfoldable pub strip_left : List ℕ → List ℕ
strip_left [] = []
strip_left (c ∷ cs) = let rest = strip_left cs in if is_space c then rest else c ∷ cs

unfoldable pub strip_right : List ℕ → List ℕ
strip_right [] = []
strip_right (c ∷ cs) =
    let rest = strip_right cs in if is_space c && is_empty rest then [] else c ∷ rest

-- line.strip()
unfoldable pub strip : List ℕ → List ℕ
unfolding strip_left strip_right
strip s = strip_right (strip_left s)

-- separator.join(parts)
unfoldable pub join_with : List ℕ → List (List ℕ) → List ℕ
join_with separator [] = []
join_with separator (s ∷ []) = s
join_with separator (s ∷ t ∷ ss) = s ++ (separator ++ join_with separator (t ∷ ss))

unfoldable pub reorder_section : List ℕ → List ℕ
unfolding split_lines strip sort_section join_with
reorder_section section = join_with (10 ∷ []) (sort_section (map strip (split_lines section)))

-- The loop over FILES, for one file: a file that is not there is left alone.
unfoldable pub reorder : Option (List ℕ) → Option (List ℕ)
unfolding split_sections reorder_section join_with strip
reorder none = none
reorder (some contents) =
    let ordered = map reorder_section (split_sections false contents) in
    some (strip (join_with (10 ∷ 10 ∷ []) ordered) ++ 10 ∷ [])
