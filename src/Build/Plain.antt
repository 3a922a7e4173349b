-- ===== src/Build/Plain.antt =====
-- reorder-libs.py: the comparison of a line that names no directory with one that does.
use android_device_realme_sa.Base.{
  Bool-cases, List, Option-cases, [], ap, arith, elem, false, inl, inr, is_some, refl, subst, sym,
  true, ℕ, ◌++◌, ◌==◌, ◌∙◌, ◌∷◌, ◌≡◌,
}
use android_device_realme_sa.Build.PatchElf.{starts_with}
use android_device_realme_sa.Build.Reorder.{before_last, directory, strcoll, text_eq}
use android_device_realme_sa.Build.Keys.{
  ByKey, before_last-elem, by_directories, directory-cons, directory-head, equal-of_==, heads_agree,
  heads_differ, key, key-cons, key-head, strcoll-cons,
}

pub key-none : (s : List ℕ) → elem 47 s ≡ false → key s ≡ s
unfolding key
key-none [] e = refl
key-none (c ∷ cs) e = ground arith

pub plain_directory : (s : List ℕ) → elem 47 s ≡ false → directory s ≡ s ++ 47 ∷ []
unfolding directory
plain_directory s e = elim (Option-cases (before_last s)) [
  | inl h ↦ rw h refl
  | inr (p, h) ↦ cc (ap is_some h, before_last-elem s, e)
]

-- With the slash that the script adds to a text without one.
abbrev PlainFirst : List ℕ → List ℕ → Type 0
PlainFirst s t = by_directories s t (s ++ 47 ∷ []) (directory t) ≡ strcoll s (key t)

abbrev PlainSecond : List ℕ → List ℕ → Type 0
PlainSecond s t = by_directories t s (directory t) (s ++ 47 ∷ []) ≡ strcoll (key t) s

deeper_slash :
    (d : ℕ) (ds : List ℕ) → elem 47 (d ∷ ds) ≡ true → (47 == d) ≡ false → elem 47 ds ≡ true
deeper_slash d ds f e = ground arith

empty-first :
    (d : ℕ) (ds p ks : List ℕ)
    → (47 == d) ≡ false
    → by_directories [] (d ∷ ds) (47 ∷ []) (d ∷ p) ≡ strcoll [] (d ∷ ks)
unfolding strcoll text_eq starts_with
empty-first d ds p ks e = ground arith

empty-second :
    (d : ℕ) (ds p ks : List ℕ)
    → (47 == d) ≡ false
    → by_directories (d ∷ ds) [] (d ∷ p) (47 ∷ []) ≡ strcoll (d ∷ ks) []
unfolding strcoll text_eq starts_with
empty-second d ds p ks e = ground arith

not_root : (d : ℕ) (ds : List ℕ) → starts_with (47 ∷ []) (d ∷ ds) ≡ false → (47 == d) ≡ false
unfolding starts_with
not_root d ds e = ground arith

plain_head : (c : ℕ) (cs : List ℕ) → elem 47 (c ∷ cs) ≡ false → (47 == c) ≡ false
plain_head c cs e = ground arith

plain_tail : (c : ℕ) (cs : List ℕ) → elem 47 (c ∷ cs) ≡ false → elem 47 cs ≡ false
plain_tail c cs e = ground arith

below_tail :
    (c : ℕ) (cs ds : List ℕ)
    → starts_with (c ∷ (cs ++ 47 ∷ [])) (c ∷ ds) ≡ false
    → starts_with (cs ++ 47 ∷ []) ds ≡ false
unfolding starts_with
below_tail c cs ds e = ground arith

pub plain_first :
    (s t : List ℕ)
    → elem 47 s ≡ false
    → elem 47 t ≡ true
    → starts_with (s ++ 47 ∷ []) t ≡ false
    → PlainFirst s t × PlainSecond s t
plain_first s [] e f g = cc
plain_first [] (d ∷ ds) e f g =
    let (p, hp) = directory-head d ds in
    let (ks, hk) = key-head d ds in
    rw (hp, hk) (empty-first d ds p ks (not_root d ds g), empty-second d ds p ks (not_root d ds g))
plain_first (c ∷ cs) (d ∷ ds) e f g = elim (Bool-cases (c == d)) [
  | inl hit ↦
      same (λ below apart. plain_first cs ds (plain_tail c cs e) below apart) (equal-of_== c d hit)
        e f g
  | inr apart ↦
      let (p, hp) = directory-head d ds in
      let (ks, hk) = key-head d ds in
      rw (hp, hk)
        (
          heads_differ c d cs ds (cs ++ 47 ∷ []) p cs ks apart,
          heads_differ d c ds cs p (cs ++ 47 ∷ []) ks cs (ground arith),
        )
]
  where
    at : ℕ → Type 0
    at n = PlainFirst (c ∷ cs) (n ∷ ds) × PlainSecond (c ∷ cs) (n ∷ ds)

    here :
        (elem 47 ds ≡ true
          → starts_with (cs ++ 47 ∷ []) ds ≡ false
          → PlainFirst cs ds × PlainSecond cs ds)
        → elem 47 (c ∷ cs) ≡ false
        → elem 47 (c ∷ ds) ≡ true
        → starts_with (c ∷ (cs ++ 47 ∷ [])) (c ∷ ds) ≡ false
        → at c
    here ih e f g =
        let below = deeper_slash c ds f (plain_head c cs e) in
        let (first, second) = ih below (below_tail c cs ds g) in
        rw (directory-cons c ds below, key-cons c ds below)
          (
            heads_agree c cs ds (cs ++ 47 ∷ []) (directory ds)
                ∙ first
                ∙ sym (strcoll-cons c cs (key ds)),
            heads_agree c ds cs (directory ds) (cs ++ 47 ∷ [])
                ∙ second
                ∙ sym (strcoll-cons c (key ds) cs),
          )

    same :
        (elem 47 ds ≡ true
          → starts_with (cs ++ 47 ∷ []) ds ≡ false
          → PlainFirst cs ds × PlainSecond cs ds)
        → c ≡ d
        → elem 47 (c ∷ cs) ≡ false
        → elem 47 (d ∷ ds) ≡ true
        → starts_with (c ∷ (cs ++ 47 ∷ [])) (d ∷ ds) ≡ false
        → at d
    same ih h e f g = subst at h (
        here ih e (ap (λ n. elem 47 (n ∷ ds)) h ∙ f)
          (ap (λ n. starts_with (c ∷ (cs ++ 47 ∷ [])) (n ∷ ds)) h ∙ g))

-- A text without a slash that the other does not lie below, in both orders.
pub plain-slash :
    (s t : List ℕ)
    → elem 47 s ≡ false
    → elem 47 t ≡ true
    → starts_with (s ++ 47 ∷ []) t ≡ false
    → ByKey s t
plain-slash s t e f g = rw (plain_directory s e, key-none s e) ((plain_first s t e f g).0)

pub slash-plain :
    (t s : List ℕ)
    → elem 47 t ≡ true
    → elem 47 s ≡ false
    → starts_with (s ++ 47 ∷ []) t ≡ false
    → ByKey t s
slash-plain t s f e g = rw (plain_directory s e, key-none s e) ((plain_first s t e f g).1)
