-- ===== src/Build/Hashes.antt =====
-- update-sha1sums.py: runs of the script on the lines of a file, each ended by a newline.
use mathlib.Core.List.{append_assoc}
use android_device_realme_sa.Base.{
  ==_refl, All, Bool, Bool-cases, List, [], ap, arith, elem, false, if◌then◌else◌, inl, inr,
  is_empty, refl, sym, true, ℕ, ◌++◌, ◌==◌, ◌||◌, ◌∙◌, ◌∷◌, ◌≡◌,
}
use android_device_realme_sa.Build.Sha1Sums.{
  File, before, begins_with, bytes, cleanup_line, file_path, join, missing, rstrip_newline,
  unreadable, update_entry, update_line, with_hash,
}

abbrev pub IsBody : List ℕ → Type 0
IsBody = All λ c. (c == 10) ≡ false

abbrev pub line : List ℕ → List ℕ
line t = t ++ 10 ∷ []

pub rstrip_newline-line : (t : List ℕ) → IsBody t → rstrip_newline (line t) ≡ t
unfolding rstrip_newline
rstrip_newline-line [] k = refl
rstrip_newline-line (c ∷ cs) k = rw (rstrip_newline-line cs k.1, k.0) refl

pub before-IsBody : (c : ℕ) (t : List ℕ) → IsBody t → IsBody (before c t)
unfolding before
before-IsBody c [] k = tt
before-IsBody c (d ∷ ds) k = elim (Bool-cases (d == c)) [
  | inl e ↦ rw e tt
  | inr e ↦ rw e (k.0, before-IsBody c ds k.1)
]

append-IsBody : (t u : List ℕ) → IsBody t → IsBody u → IsBody (t ++ u)
append-IsBody [] u k m = m
append-IsBody (c ∷ cs) u k m = (k.0, append-IsBody cs u k.1 m)

-- The text up to the first bar is found again when a bar follows it.
pub before-bar : (c : ℕ) (t rest : List ℕ) → before c (before c t ++ c ∷ rest) ≡ before c t
unfolding before
before-bar c [] rest = rw (==_refl c) refl
before-bar c (d ∷ ds) rest = elim (Bool-cases (d == c)) [
  | inl e ↦ rw (e, ==_refl c) refl
  | inr e ↦ rw e (rw (e, before) (ap (λ xs. d ∷ xs) (before-bar c ds rest)))
]

before-none : (c : ℕ) (t : List ℕ) → elem c t ≡ false → before c t ≡ t
unfolding before
before-none c [] h = refl
before-none c (d ∷ ds) h = ground (arith, before-none c ds)

-- Empty lines and comments, which both modes keep.
abbrev pub is_kept : List ℕ → Bool
is_kept t = is_empty t || begins_with 35 t

pub cleanup_body : List ℕ → List ℕ
cleanup_body t = if is_kept t then t else before 124 t

pub cleanup_line-line : (t : List ℕ) → IsBody t → cleanup_line (line t) ≡ line (cleanup_body t)
unfolding cleanup_line cleanup_body
cleanup_line-line t k = rw (rstrip_newline-line t k) (ground (arith, before-none 124 t))

entry-starts :
    (t rest : List ℕ)
    → is_kept t ≡ false
    → let u = before 124 t ++ 124 ∷ rest in
      (is_empty u ≡ is_empty t) × (begins_with 35 u ≡ begins_with 35 t)
unfolding before begins_with
entry-starts [] rest e = cc
entry-starts (c ∷ cs) rest e = ground arith

-- The text up to the first bar has no bar to stop at.
before_twice : (c : ℕ) (t : List ℕ) → before c (before c t) ≡ before c t
unfolding before
before_twice c [] = refl
before_twice c (d ∷ ds) = elim (Bool-cases (d == c)) [
  | inl e ↦ rw e refl
  | inr e ↦ rw e (rw (e, before) (ap (λ xs. d ∷ xs) (before_twice c ds)))
]

pub cleanup_body_twice : (t : List ℕ) → cleanup_body (cleanup_body t) ≡ cleanup_body t
unfolding cleanup_body
cleanup_body_twice t = ground (arith, before_twice 124 t)

pub cleanup_body-IsBody : (t : List ℕ) → IsBody t → IsBody (cleanup_body t)
unfolding cleanup_body
cleanup_body-IsBody t k = elim (Bool-cases (is_kept t)) [
  | inl e ↦ rw e k
  | inr e ↦ rw e (before-IsBody 124 t k)
]

module _ (disk : List ℕ → File) (sha1 : List ℕ → List ℕ) (vendor_path : List ℕ)
    (digests : (bs : List ℕ) → IsBody (sha1 bs)) where
  -- An entry after a run that found the file at its path.
  hashed : List ℕ → File → List ℕ
  hashed t missing = t
  hashed t unreadable = t
  hashed t (bytes bs) = before 124 t ++ 124 ∷ sha1 bs

  found_file : List ℕ → File
  found_file t = disk (join vendor_path (file_path (before 124 t)))

  pub update_body : Bool → List ℕ → List ℕ
  unfolding hashed found_file
  update_body need t = if is_kept t then t else if need then hashed t (found_file t) else t

  hashed-line :
      (t : List ℕ) (o : File)
      → with_hash disk sha1 vendor_path (line t) (before 124 t) o ≡ line (hashed t o)
  unfolding with_hash hashed
  hashed-line t missing = refl
  hashed-line t unreadable = refl
  hashed-line t (bytes bs) = sym (append_assoc (before 124 t) (124 ∷ sha1 bs) (10 ∷ []))

  pub update_line-line :
      (need : Bool) (t : List ℕ)
      → IsBody t
      → update_line disk sha1 vendor_path need (line t) ≡ line (update_body need t)
  unfolding update_line update_entry update_body found_file
  update_line-line need t k =
      rw (rstrip_newline-line t k) (ground (arith, hashed-line t (found_file t)))

  -- What a run keeps of a body.
  pub record Keeps (t u : List ℕ) : Type 0 where
    pub same_empty : is_empty u ≡ is_empty t
    pub same_comment : begins_with 35 u ≡ begins_with 35 t
    pub same_entry : before 124 u ≡ before 124 t
    pub body : IsBody u

  entry-Keeps :
      (t bs : List ℕ) → IsBody t → is_kept t ≡ false → Keeps t (before 124 t ++ 124 ∷ sha1 bs)
  entry-Keeps t bs k e = record {
    same_empty = (entry-starts t (sha1 bs) e).0;
    same_comment = (entry-starts t (sha1 bs) e).1;
    same_entry = before-bar 124 t (sha1 bs);
    body = append-IsBody (before 124 t) (124 ∷ sha1 bs) (before-IsBody 124 t k) (refl, digests bs);
  }

  Keeps-refl : (t : List ℕ) → IsBody t → Keeps t t
  Keeps-refl t k = record { same_empty = refl; same_comment = refl; same_entry = refl; body = k }

  hashed-Keeps : (t : List ℕ) (o : File) → IsBody t → is_kept t ≡ false → Keeps t (hashed t o)
  unfolding hashed
  hashed-Keeps t missing k e = Keeps-refl t k
  hashed-Keeps t unreadable k e = Keeps-refl t k
  hashed-Keeps t (bytes bs) k e = entry-Keeps t bs k e

  pub update_body-Keeps : (need : Bool) (t : List ℕ) → IsBody t → Keeps t (update_body need t)
  unfolding update_body
  update_body-Keeps need t k = elim (Bool-cases (is_kept t)) [
    | inl e ↦ rw e (Keeps-refl t k)
    | inr e ↦ rw e (by_need need e)
  ]
    where
      by_need : (b : Bool) → is_kept t ≡ false → Keeps t (if b then hashed t (found_file t) else t)
      by_need true e = hashed-Keeps t (found_file t) k e
      by_need false e = Keeps-refl t k

  hashed_twice : (t : List ℕ) (o : File) → hashed (hashed t o) o ≡ hashed t o
  unfolding hashed
  hashed_twice t missing = refl
  hashed_twice t unreadable = refl
  hashed_twice t (bytes bs) = ap (λ xs. xs ++ 124 ∷ sha1 bs) (before-bar 124 t (sha1 bs))

  pub update_body-kept : (need : Bool) (t : List ℕ) → is_kept t ≡ true → update_body need t ≡ t
  unfolding update_body
  update_body-kept need t e = rw e refl

  update_body-entry :
      (t : List ℕ) → is_kept t ≡ false → update_body true t ≡ hashed t (found_file t)
  unfolding update_body
  update_body-entry t e = rw e refl

  update_body-unpinned : (t : List ℕ) → update_body false t ≡ t
  unfolding update_body
  update_body-unpinned t = ground arith

  Keeps-is_kept : {t u : List ℕ} → Keeps t u → is_kept u ≡ is_kept t
  Keeps-is_kept k = λ i. k.same_empty i || k.same_comment i

  entry_twice :
      (t : List ℕ)
      → IsBody t
      → is_kept t ≡ false
      → update_body true (hashed t (found_file t)) ≡ hashed t (found_file t)
  unfolding found_file
  entry_twice t k e =
      let kept = hashed-Keeps t (found_file t) k e in
      update_body-entry _ (Keeps-is_kept kept ∙ e)
      ∙ ap (λ p. hashed (hashed t (found_file t)) (disk (join vendor_path (file_path p))))
          kept.same_entry
      ∙ hashed_twice t (found_file t)

  pub update_body_twice :
      (need : Bool) (t : List ℕ)
      → IsBody t
      → update_body need (update_body need t) ≡ update_body need t
  update_body_twice false t k = ap (update_body false) (update_body-unpinned t)
  update_body_twice true t k = elim (Bool-cases (is_kept t)) [
    | inl e ↦ ap (update_body true) (update_body-kept true t e)
    | inr e ↦ rw (update_body-entry t e) (entry_twice t k e)
  ]

  cleanup_body-Keeps :
      (t u : List ℕ) → is_kept t ≡ false → Keeps t u → cleanup_body u ≡ cleanup_body t
  unfolding cleanup_body
  cleanup_body-Keeps t u e k =
      let f : is_kept u ≡ false = Keeps-is_kept k ∙ e in rw (e, f) (k.same_entry)

  pub cleanup_body-update :
      (need : Bool) (t : List ℕ) → IsBody t → cleanup_body (update_body need t) ≡ cleanup_body t
  cleanup_body-update need t k = elim (Bool-cases (is_kept t)) [
    | inl e ↦ ap cleanup_body (update_body-kept need t e)
    | inr e ↦ cleanup_body-Keeps t (update_body need t) e (update_body-Keeps need t k)
  ]
