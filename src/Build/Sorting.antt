-- ===== src/Build/Sorting.antt =====
-- reorder-libs.py: the lines of a section, sorted.
use android_device_realme_sa.Base.{
  Bool, Bool-cases, List, [], arith, elem, false, if◌then◌else◌, inl, inr, is_empty, not, refl,
  true, ℕ, ◌&&◌, ◌++◌, ◌==◌, ◌||◌, ◌∙◌, ◌∷◌, ◌≡◌,
}
use android_device_realme_sa.Build.Sha1Sums.{begins_with}
use android_device_realme_sa.Build.Reorder.{
  compare_entries, directory, strcoll, strcoll_extract_utils, unmarked,
}
use android_device_realme_sa.Build.PatchElf.{starts_with}
use android_device_realme_sa.Build.Plain.{key-none, plain-slash, slash-plain}
use android_device_realme_sa.Build.Keys.{IsText, by_directories, heads_apart, key, slashes-ByKey}

-- The first slash of a text, if it has one, stands behind a blank; `before_it` is the character in front
-- of the text.
unfoldable pub is_blank_slash : ℕ → List ℕ → Bool
is_blank_slash before_it [] = true
is_blank_slash before_it (c ∷ cs) =
    let rest = is_blank_slash c cs in if c == 47 then before_it == 32 else rest

-- The last character of a text.
unfoldable pub last_or : ℕ → List ℕ → ℕ
last_or c [] = c
last_or c (d ∷ ds) = last_or d ds

-- A comment, which ends with no blank and whose first slash stands behind a blank, as in `a / b`; or an
-- entry, which has a directory.
unfoldable pub is_listed : List ℕ → Bool
unfolding is_blank_slash last_or begins_with
is_listed u =
    if begins_with 35 u then is_blank_slash 35 u && not (last_or 35 u == 32) else elem 47 u

-- A line of the list, with the mark `-` or without.
pub record IsLine (s : List ℕ) : Type 0 where
  pub text : IsText (unmarked s)
  pub not_empty : is_empty s ≡ false
  pub listed : is_listed (unmarked s) ≡ true

abbrev pub line_key : List ℕ → List ℕ
line_key s = key (unmarked s)

comment-entry :
    (s t : List ℕ)
    → begins_with 35 s ≡ true
    → begins_with 35 t ≡ false
    → elem 47 t ≡ true
    → by_directories s t (directory s) (directory t) ≡ strcoll (key s) (key t)
unfolding begins_with
comment-entry [] t e f g = cc
comment-entry (c ∷ cs) [] e f g = cc
comment-entry (c ∷ cs) (d ∷ ds) e f g = heads_apart c d cs ds (ground arith)

entry-comment :
    (s t : List ℕ)
    → begins_with 35 s ≡ false
    → elem 47 s ≡ true
    → begins_with 35 t ≡ true
    → by_directories s t (directory s) (directory t) ≡ strcoll (key s) (key t)
unfolding begins_with
entry-comment [] t e f g = cc
entry-comment (c ∷ cs) [] e f g = cc
entry-comment (c ∷ cs) (d ∷ ds) e f g = heads_apart c d cs ds (ground arith)

compare_entries-one :
    (s t : List ℕ)
    → elem 47 s || elem 47 t ≡ true
    → compare_entries s t ≡ by_directories s t (directory s) (directory t)
unfolding compare_entries
compare_entries-one s t e = ground arith

compare_entries-none :
    (s t : List ℕ)
    → elem 47 s ≡ false
    → elem 47 t ≡ false
    → compare_entries s t ≡ strcoll (key s) (key t)
unfolding compare_entries
compare_entries-none s t e f = rw (e, f) (rw (key-none s e, key-none t f) refl)

-- A text without a slash never is the first directory of a comment.
below-blank :
    (p : ℕ) (s t : List ℕ)
    → elem 47 s ≡ false
    → starts_with (s ++ 47 ∷ []) t ≡ true
    → is_blank_slash p t ≡ (last_or p s == 32)
unfolding starts_with is_blank_slash last_or
below-blank p [] [] e f = cc
below-blank p [] (d ∷ ds) e f = ground arith
below-blank p (c ∷ cs) [] e f = cc
below-blank p (c ∷ cs) (d ∷ ds) e f = ground (arith, below-blank d cs ds)

not_below :
    (s t : List ℕ)
    → elem 47 s ≡ false
    → begins_with 35 s ≡ true
    → begins_with 35 t ≡ true
    → is_listed s ≡ true
    → is_listed t ≡ true
    → starts_with (s ++ 47 ∷ []) t ≡ false
unfolding is_listed
not_below s t e a b k l = elim (Bool-cases (starts_with (s ++ 47 ∷ []) t)) [
  | inl below ↦ ground (arith, below-blank 35 s t e below)
  | inr apart ↦ apart
]

comments-key :
    (s t : List ℕ)
    → IsText s
    → IsText t
    → begins_with 35 s ≡ true
    → begins_with 35 t ≡ true
    → is_listed s ≡ true
    → is_listed t ≡ true
    → compare_entries s t ≡ strcoll (key s) (key t)
comments-key s t k l a b m n = elim (Bool-cases (elem 47 s)) [
  | inl e ↦ compare_entries-one s t (rw e refl) ∙ elim (Bool-cases (elem 47 t)) [
    | inl f ↦ slashes-ByKey s t e f k l
    | inr f ↦ slash-plain s t e f (not_below t s f b a n m)
  ]
  | inr e ↦ elim (Bool-cases (elem 47 t)) [
    | inl f ↦
        compare_entries-one s t (ground (arith, f)) ∙ plain-slash s t e f (not_below s t e a b m n)
    | inr f ↦ compare_entries-none s t e f
  ]
]

entry-slash : (s : List ℕ) → begins_with 35 s ≡ false → is_listed s ≡ true → elem 47 s ≡ true
unfolding is_listed
entry-slash s a m = ground arith

compare_entries-key :
    (s t : List ℕ)
    → IsText s
    → IsText t
    → is_listed s ≡ true
    → is_listed t ≡ true
    → compare_entries s t ≡ strcoll (key s) (key t)
compare_entries-key s t k l m n = elim (Bool-cases (begins_with 35 s)) [
  | inl a ↦ elim (Bool-cases (begins_with 35 t)) [
    | inl b ↦ comments-key s t k l a b m n
    | inr b ↦
        compare_entries-one s t (ground (arith, entry-slash t b n))
        ∙ comment-entry s t a b (entry-slash t b n)
  ]
  | inr a ↦
      compare_entries-one s t (rw (entry-slash s a m) refl) ∙ elim (Bool-cases (begins_with 35 t)) [
        | inl b ↦ entry-comment s t a (entry-slash s a m) b
        | inr b ↦ slashes-ByKey s t (entry-slash s a m) (entry-slash t b n) k l
      ]
]

-- On lines of the list (an entry in some directory, or a comment that ends with no blank and whose first
-- slash, if any, stands behind a blank; with the mark of a build target or without), the comparison of
-- the script is that of their keys: the text without its mark, with a sign above all character codes
-- behind its last slash. So a file of a subdirectory comes before the files of the directory.
pub strcoll_extract_utils-key :
    (s t : List ℕ)
    → IsLine s
    → IsLine t
    → strcoll_extract_utils s t ≡ strcoll (line_key s) (line_key t)
unfolding strcoll_extract_utils
strcoll_extract_utils-key s t k l =
    rw (k.not_empty, l.not_empty)
      (compare_entries-key (unmarked s) (unmarked t) k.text l.text k.listed l.listed)
