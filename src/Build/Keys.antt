-- ===== src/Build/Keys.antt =====
-- reorder-libs.py: the comparison of two lines, as the order of a key of each.
use android_device_realme_sa.Base.{
  ==_refl, All, Bool-cases, List, Option-cases, [], ap, arith, elem, false, if◌then◌else◌, inl, inr,
  is_some, ltb, refl, subst, sym, true, ℕ, ◌++◌, ◌==◌, ◌∙◌, ◌∷◌, ◌≡◌,
}
use android_device_realme_sa.Build.PatchElf.{starts_with}
use android_device_realme_sa.Build.Reorder.{
  Sign, before_last, directory, greater, less, strcoll, text_eq,
}

-- The text with a mark above all character codes behind its last slash.
unfoldable pub key : List ℕ → List ℕ
key [] = []
key (c ∷ cs) =
    let rest = key cs in
    if elem 47 cs then c ∷ rest else if c == 47 then 47 ∷ 1114112 ∷ cs else c ∷ cs

abbrev pub IsText : List ℕ → Type 0
IsText = All λ c. ltb c 1114112 ≡ true

-- The tests of strcoll_extract_utils on the directories.
abbrev pub by_directories : List ℕ → List ℕ → List ℕ → List ℕ → Sign
by_directories s t d e =
    if text_eq d e
    then strcoll s t
    else if starts_with e d
    then less
    else if starts_with d e
    then greater
    else strcoll s t

pub before_last-elem : (s : List ℕ) → is_some (before_last s) ≡ elem 47 s
unfolding before_last
before_last-elem [] = refl
before_last-elem (c ∷ cs) = ground (arith, before_last-elem cs)

pub directory-cons :
    (c : ℕ) (cs : List ℕ) → elem 47 cs ≡ true → directory (c ∷ cs) ≡ c ∷ directory cs
unfolding directory before_last
directory-cons c cs e = ground (arith, before_last-elem cs)

directory-root : (cs : List ℕ) → elem 47 cs ≡ false → directory (47 ∷ cs) ≡ 47 ∷ []
unfolding directory before_last
directory-root cs e = ground (arith, before_last-elem cs)

pub key-cons : (c : ℕ) (cs : List ℕ) → elem 47 cs ≡ true → key (c ∷ cs) ≡ c ∷ key cs
unfolding key
key-cons c cs e = rw e refl

key-root : (cs : List ℕ) → elem 47 cs ≡ false → key (47 ∷ cs) ≡ 47 ∷ 1114112 ∷ cs
unfolding key
key-root cs e = rw e refl

pub equal-of_== : (c d : ℕ) → (c == d) ≡ true → c ≡ d
equal-of_== c d h = ground arith

pub key-head : (c : ℕ) (cs : List ℕ) → (ks : List ℕ) × (key (c ∷ cs) ≡ c ∷ ks)
unfolding key
key-head c cs = elim (Bool-cases (elem 47 cs)) [
  | inl e ↦ (key cs, rw e refl)
  | inr e ↦ elim (Bool-cases (c == 47)) [
    | inl h ↦ (1114112 ∷ cs, rw (e, h) (ap (λ n. n ∷ 1114112 ∷ cs) (sym (equal-of_== c 47 h))))
    | inr h ↦ (cs, rw (e, h) refl)
  ]
]

pub directory-head : (c : ℕ) (cs : List ℕ) → (ds : List ℕ) × (directory (c ∷ cs) ≡ c ∷ ds)
unfolding directory before_last
directory-head c cs = elim (Option-cases (before_last cs)) [
  | inl e ↦ elim (Bool-cases (c == 47)) [
    | inl h ↦ ([], ground (arith, e, h))
    | inr h ↦ (cs ++ 47 ∷ [], ground (arith, e, h))
  ]
  | inr (p, e) ↦ (p ++ 47 ∷ [], ground (arith, e))
]

pub heads_differ :
    (c d : ℕ) (cs ds p q ks ls : List ℕ)
    → (c == d) ≡ false
    → by_directories (c ∷ cs) (d ∷ ds) (c ∷ p) (d ∷ q) ≡ strcoll (c ∷ ks) (d ∷ ls)
unfolding strcoll text_eq starts_with
heads_differ c d cs ds p q ks ls e = ground arith

pub heads_agree :
    (c : ℕ) (cs ds p q : List ℕ)
    → by_directories (c ∷ cs) (c ∷ ds) (c ∷ p) (c ∷ q) ≡ by_directories cs ds p q
unfolding strcoll text_eq starts_with
heads_agree c cs ds p q = rw (==_refl c) (ground arith)

pub strcoll-cons : (c : ℕ) (cs ds : List ℕ) → strcoll (c ∷ cs) (c ∷ ds) ≡ strcoll cs ds
unfolding strcoll
strcoll-cons c cs ds = ground arith

-- A file in a directory below comes before, and one in a directory above behind.
deeper-less :
    (c : ℕ) (cs ds p ks : List ℕ)
    → ltb c 1114112 ≡ true
    → by_directories (47 ∷ cs) (47 ∷ ds) (47 ∷ c ∷ p) (47 ∷ [])
      ≡ strcoll (47 ∷ c ∷ ks) (47 ∷ 1114112 ∷ ds)
unfolding strcoll text_eq starts_with
deeper-less c cs ds p ks e = ground arith

deeper-greater :
    (c : ℕ) (cs ds p ks : List ℕ)
    → ltb c 1114112 ≡ true
    → by_directories (47 ∷ cs) (47 ∷ ds) (47 ∷ []) (47 ∷ c ∷ p)
      ≡ strcoll (47 ∷ 1114112 ∷ cs) (47 ∷ c ∷ ks)
unfolding strcoll text_eq starts_with
deeper-greater c cs ds p ks e = ground arith

same_directory :
    (cs ds : List ℕ)
    → by_directories (47 ∷ cs) (47 ∷ ds) (47 ∷ []) (47 ∷ [])
      ≡ strcoll (47 ∷ 1114112 ∷ cs) (47 ∷ 1114112 ∷ ds)
unfolding strcoll text_eq starts_with
same_directory cs ds = ground arith

slash-root : (c : ℕ) (cs : List ℕ) → elem 47 (c ∷ cs) ≡ true → elem 47 cs ≡ false → c ≡ 47
slash-root c cs e f = ground arith

-- The comparison by directories is that of the keys.
abbrev pub ByKey : List ℕ → List ℕ → Type 0
ByKey s t = by_directories s t (directory s) (directory t) ≡ strcoll (key s) (key t)

root-less :
    (cs ds : List ℕ)
    → elem 47 cs ≡ true
    → elem 47 ds ≡ false
    → IsText cs
    → ByKey (47 ∷ cs) (47 ∷ ds)
root-less [] ds a b k = cc
root-less (c ∷ cs) ds a b k =
    let (p, hp) = directory-head c cs in
    let (ks, hk) = key-head c cs in
    rw (directory-cons 47 (c ∷ cs) a, directory-root ds b, key-cons 47 (c ∷ cs) a, key-root ds b)
      (rw (hp, hk) (deeper-less c (c ∷ cs) ds p ks k.0))

root-greater :
    (cs ds : List ℕ)
    → elem 47 cs ≡ false
    → elem 47 ds ≡ true
    → IsText ds
    → ByKey (47 ∷ cs) (47 ∷ ds)
root-greater cs [] a b k = cc
root-greater cs (d ∷ ds) a b k =
    let (p, hp) = directory-head d ds in
    let (ks, hk) = key-head d ds in
    rw (directory-root cs a, directory-cons 47 (d ∷ ds) b, key-root cs a, key-cons 47 (d ∷ ds) b)
      (rw (hp, hk) (deeper-greater d cs (d ∷ ds) p ks k.0))

root-same : (cs ds : List ℕ) → elem 47 cs ≡ false → elem 47 ds ≡ false → ByKey (47 ∷ cs) (47 ∷ ds)
root-same cs ds a b =
    rw (directory-root cs a, directory-root ds b, key-root cs a, key-root ds b)
      (same_directory cs ds)

at_root : (c : ℕ) (cs ds : List ℕ) → c ≡ 47 → ByKey (47 ∷ cs) (47 ∷ ds) → ByKey (c ∷ cs) (c ∷ ds)
at_root c cs ds e k = subst (λ n. ByKey (n ∷ cs) (n ∷ ds)) {x = 47} {y = c} (sym e) k

same_heads-ByKey :
    (c : ℕ) (cs ds : List ℕ)
    → elem 47 (c ∷ cs) ≡ true
    → elem 47 (c ∷ ds) ≡ true
    → IsText cs
    → IsText ds
    → (elem 47 cs ≡ true → elem 47 ds ≡ true → ByKey cs ds)
    → ByKey (c ∷ cs) (c ∷ ds)
same_heads-ByKey c cs ds e f k l rest = elim (Bool-cases (elem 47 cs)) [
  | inl a ↦ elim (Bool-cases (elem 47 ds)) [
    | inl b ↦
        rw (directory-cons c cs a, directory-cons c ds b, key-cons c cs a, key-cons c ds b)
          (heads_agree c cs ds (directory cs) (directory ds)
            ∙ rest a b
            ∙ sym (strcoll-cons c (key cs) (key ds)))
    | inr b ↦ at_root c cs ds (slash-root c ds f b) (root-less cs ds a b k)
  ]
  | inr a ↦ at_root c cs ds (slash-root c cs e a) (elim (Bool-cases (elem 47 ds)) [
    | inl b ↦ root-greater cs ds a b l
    | inr b ↦ root-same cs ds a b
  ])
]

pub heads_apart : (c d : ℕ) (cs ds : List ℕ) → (c == d) ≡ false → ByKey (c ∷ cs) (d ∷ ds)
heads_apart c d cs ds apart =
    let (p, hp) = directory-head c cs in
    let (q, hq) = directory-head d ds in
    let (ks, hk) = key-head c cs in
    let (ls, hl) = key-head d ds in rw (hp, hq, hk, hl) (heads_differ c d cs ds p q ks ls apart)

pub slashes-ByKey :
    (s t : List ℕ) → elem 47 s ≡ true → elem 47 t ≡ true → IsText s → IsText t → ByKey s t
slashes-ByKey [] t e f k l = cc
slashes-ByKey (c ∷ cs) [] e f k l = cc
slashes-ByKey (c ∷ cs) (d ∷ ds) e f k l = elim (Bool-cases (c == d)) [
  | inl hit ↦
      subst (λ n. ByKey (c ∷ cs) (n ∷ ds)) {x = c} {y = d} (equal-of_== c d hit)
        (same_heads-ByKey c cs ds e (ap (λ n. elem 47 (n ∷ ds)) (equal-of_== c d hit) ∙ f) k.1 l.1
          (λ a b. slashes-ByKey cs ds a b k.1 l.1))
  | inr apart ↦ heads_apart c d cs ds apart
]
