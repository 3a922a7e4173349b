-- ===== src/Build/Texts.antt =====
-- reorder-libs.py: texts put together from lines and sections, and taken apart again.
use mathlib.Core.List.{append_assoc, append-nil}
use android_device_realme_sa.Base.{
  All, List, [], ap, arith, false, get_or, is_empty, refl, sym, ℕ, ◌++◌, ◌==◌, ◌∙◌, ◌∷◌, ◌≡◌,
}
use android_device_realme_sa.Build.Sha1Sums.{begins_with}
use android_device_realme_sa.Build.ReorderFile.{
  is_line_break, is_space, join_with, push, split_lines, split_sections, strip_right,
}

-- A line with a character that is no blank at both ends, and no line break.
pub record IsClean (l : List ℕ) : Type 0 where
  pub first : is_space (get_or l 0 32) ≡ false
  pub last : strip_right l ≡ l
  pub unbroken : All (λ c. is_line_break c ≡ false) l

-- Some lines, each clean.
pub record IsSection (ls : List (List ℕ)) : Type 0 where
  pub not_empty : is_empty ls ≡ false
  pub clean : All IsClean ls

abbrev pub section_text : List (List ℕ) → List ℕ
section_text = join_with (10 ∷ [])

-- A text in front of the first of some texts.
abbrev pub glue : List ℕ → List (List ℕ) → List (List ℕ)
glue w [] = w ∷ []
glue w (s ∷ ss) = (w ++ s) ∷ ss

push-glue : (c : ℕ) (w : List ℕ) (ss : List (List ℕ)) → push c (glue w ss) ≡ glue (c ∷ w) ss
push-glue c w [] = refl
push-glue c w (s ∷ ss) = refl

glue-newline :
    (w v : List ℕ) (ss : List (List ℕ)) → glue w (push 10 (glue v ss)) ≡ glue (w ++ 10 ∷ v) ss
glue-newline w v [] = refl
glue-newline w v (s ∷ ss) = ap (λ t. t ∷ ss) (sym (append_assoc w (10 ∷ v) s))

newline_apart : (c : ℕ) → is_line_break c ≡ false → (c == 10) ≡ false
newline_apart c e = ground arith

pub join-cons :
    (separator s t : List ℕ) (ss : List (List ℕ))
    → join_with separator (s ∷ t ∷ ss) ≡ s ++ (separator ++ join_with separator (t ∷ ss))
unfolding join_with
join-cons separator s t ss = refl

pub join-one : (separator s : List ℕ) → join_with separator (s ∷ []) ≡ s
unfolding join_with
join-one separator s = refl

-- What stands at the front of a section, whatever follows it.
starts_clean :
    (l : List ℕ) (ls : List (List ℕ)) (r : List ℕ)
    → IsClean l
    → is_space (get_or (section_text (l ∷ ls) ++ r) 0 32) ≡ false
unfolding join_with
starts_clean [] ls r k = cc (k.first)
starts_clean (c ∷ cs) [] r k = k.first
starts_clean (c ∷ cs) (m ∷ ms) r k = k.first

no_newline_first : (t : List ℕ) → is_space (get_or t 0 32) ≡ false → begins_with 10 t ≡ false
unfolding begins_with
no_newline_first [] e = refl
no_newline_first (c ∷ cs) e = ground arith

split_sections-line :
    (w r : List ℕ)
    → All (λ c. is_line_break c ≡ false) w
    → (is_empty w ≡ false)
    → split_sections false (w ++ r) ≡ glue w (split_sections false r)
unfolding split_sections
split_sections-line [] r k e = cc
split_sections-line (c ∷ []) r k e = rw (newline_apart c k.0) (one (split_sections false r))
  where
    one : (ss : List (List ℕ)) → push c ss ≡ glue (c ∷ []) ss
    one [] = refl
    one (s ∷ ss) = refl
split_sections-line (c ∷ d ∷ w) r k e = rw (newline_apart c k.0) (
    ap (push c) (split_sections-line (d ∷ w) r k.1 refl)
    ∙ push-glue c (d ∷ w) (split_sections false r))

clean_not_empty : (l : List ℕ) → IsClean l → is_empty l ≡ false
clean_not_empty [] k = cc (k.first)
clean_not_empty (c ∷ cs) k = refl

split-newline :
    (t : List ℕ)
    → begins_with 10 t ≡ false
    → split_sections false (10 ∷ t) ≡ push 10 (split_sections false t)
unfolding split_sections
split-newline t e = rw e refl

-- A section is one part, glued to what follows it.
pub split_sections-section :
    (l : List ℕ) (ls : List (List ℕ)) (r : List ℕ)
    → All IsClean (l ∷ ls)
    → split_sections false (section_text (l ∷ ls) ++ r)
      ≡ glue (section_text (l ∷ ls)) (split_sections false r)
split_sections-section l [] r k =
    rw (join-one (10 ∷ []) l) (split_sections-line l r (k.0).unbroken (clean_not_empty l k.0))
split_sections-section l (m ∷ ms) r k =
    let later = section_text (m ∷ ms) in
    let text = join-cons (10 ∷ []) l m ms in
    ap (λ t. split_sections false (t ++ r)) text
    ∙ ap (split_sections false) (append_assoc l (10 ∷ later) r)
    ∙ split_sections-line l (10 ∷ (later ++ r)) (k.0).unbroken (clean_not_empty l k.0)
    ∙ ap (glue l) (
        split-newline (later ++ r) (no_newline_first (later ++ r) (starts_clean m ms r k.1.0))
        ∙ ap (push 10) (split_sections-section m ms r k.1))
    ∙ glue-newline l later (split_sections false r)
    ∙ ap (λ t. glue t (split_sections false r)) (sym text)

split_lines-line :
    (w r : List ℕ)
    → All (λ c. is_line_break c ≡ false) w
    → is_empty w ≡ false
    → split_lines (w ++ r) ≡ glue w (split_lines r)
unfolding split_lines
split_lines-line [] r k e = cc
split_lines-line (c ∷ []) r k e = rw (k.0) (one (split_lines r))
  where
    one : (ss : List (List ℕ)) → push c ss ≡ glue (c ∷ []) ss
    one [] = refl
    one (s ∷ ss) = refl
split_lines-line (c ∷ d ∷ w) r k e =
    rw (k.0)
      (ap (push c) (split_lines-line (d ∷ w) r k.1 refl) ∙ push-glue c (d ∷ w) (split_lines r))

split_lines-newline : (t : List ℕ) → split_lines (10 ∷ t) ≡ [] ∷ split_lines t
unfolding split_lines
split_lines-newline t = refl

-- The lines of a section, whether its text ends with a newline or not.
pub split_lines-section :
    (l : List ℕ) (ls : List (List ℕ)) (end : List ℕ)
    → All IsClean (l ∷ ls)
    → ((m : List ℕ) → glue m (split_lines end) ≡ m ∷ [])
    → split_lines (section_text (l ∷ ls) ++ end) ≡ l ∷ ls
split_lines-section l [] end k f =
    rw (join-one (10 ∷ []) l) (split_lines-line l end (k.0).unbroken (clean_not_empty l k.0) ∙ f l)
split_lines-section l (m ∷ ms) end k f =
    let later = section_text (m ∷ ms) in
    ap (λ t. split_lines (t ++ end)) (join-cons (10 ∷ []) l m ms)
    ∙ ap split_lines (append_assoc l (10 ∷ later) end)
    ∙ split_lines-line l (10 ∷ (later ++ end)) (k.0).unbroken (clean_not_empty l k.0)
    ∙ ap (glue l) (
        split_lines-newline (later ++ end)
        ∙ ap (λ ss. [] ∷ ss) (split_lines-section m ms end k.1 f))
    ∙ ap (λ t. t ∷ m ∷ ms) (append-nil l)
