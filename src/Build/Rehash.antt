-- ===== src/Build/Rehash.antt =====
-- update-sha1sums.py: several runs of the script on one file.
use android_device_realme_sa.Base.{
  All, Bool, Bool-cases, List, [], ap, arith, false, inl, inr, map, refl, sym, true, ℕ, ◌∙◌, ◌∷◌,
  ◌≡◌,
}
use android_device_realme_sa.Build.Sha1Sums.{
  File, begins_with, cleanup, cleanup_line, next_need, update,
}
use android_device_realme_sa.Build.Hashes.{
  IsBody, cleanup_body, cleanup_body-IsBody, cleanup_body-update, cleanup_body_twice,
  cleanup_line-line, is_kept, line, rstrip_newline-line, update_body, update_body-Keeps,
  update_body-kept, update_body_twice, update_line-line,
}

abbrev pub IsText : List (List ℕ) → Type 0
IsText = All IsBody

-- A line that is no comment leaves needSHA1 as it is.
next_need-entry :
    (need : Bool) (t : List ℕ)
    → IsBody t
    → begins_with 35 t ≡ false
    → next_need need (line t) ≡ need
unfolding next_need
next_need-entry need t k e = rw (rstrip_newline-line t k, e) refl

comment_kept : (t : List ℕ) → begins_with 35 t ≡ true → is_kept t ≡ true
comment_kept t e = ground arith

module _ (disk : List ℕ → File) (sha1 : List ℕ → List ℕ) (vendor_path : List ℕ)
    (digests : (bs : List ℕ) → IsBody (sha1 bs)) where
  abbrev run : Bool → List (List ℕ) → List (List ℕ)
  run = update disk sha1 vendor_path

  abbrev body_after : Bool → List ℕ → List ℕ
  body_after = update_body disk sha1 vendor_path digests

  next_need-update :
      (need : Bool) (t : List ℕ)
      → IsBody t
      → next_need need (line (body_after need t)) ≡ next_need need (line t)
  next_need-update need t k = elim (Bool-cases (begins_with 35 t)) [
    | inl e ↦
        ap (λ u. next_need need (line u))
          (update_body-kept disk sha1 vendor_path digests need t (comment_kept t e))
    | inr e ↦
        let kept = update_body-Keeps disk sha1 vendor_path digests need t k in
        next_need-entry need (body_after need t) kept.body (kept.same_comment ∙ e)
        ∙ sym (next_need-entry need t k e)
  ]

  update_again :
      (need : Bool) (ts : List (List ℕ))
      → IsText ts
      → run need (run need (map line ts)) ≡ run need (map line ts)
  unfolding update
  update_again need [] k = refl
  update_again need (t ∷ ts) k =
      let u = body_after need t in
      let kept = update_body-Keeps disk sha1 vendor_path digests need t k.0 in
      let once = update_line-line disk sha1 vendor_path digests need t k.0 in
      let later = run (next_need need (line t)) (map line ts) in
      let first =
        update_line-line disk sha1 vendor_path digests need u kept.body
        ∙ ap line (update_body_twice disk sha1 vendor_path digests need t k.0) in
      let rest =
        ap (λ n. run n later) (next_need-update need t k.0)
        ∙ update_again (next_need need (line t)) ts k.1 in
      ap (λ l. run need (l ∷ later)) once ∙ (λ i. first i ∷ rest i) ∙ ap (λ l. l ∷ later) (sym once)

  cleanup-update :
      (need : Bool) (ts : List (List ℕ))
      → IsText ts
      → cleanup (run need (map line ts)) ≡ cleanup (map line ts)
  unfolding update cleanup
  cleanup-update need [] k = refl
  cleanup-update need (t ∷ ts) k =
      let kept = update_body-Keeps disk sha1 vendor_path digests need t k.0 in
      let first =
        ap cleanup_line (update_line-line disk sha1 vendor_path digests need t k.0)
        ∙ cleanup_line-line (body_after need t) kept.body
        ∙ ap line (cleanup_body-update disk sha1 vendor_path digests need t k.0)
        ∙ sym (cleanup_line-line t k.0) in
      λ i. first i ∷ cleanup-update (next_need need (line t)) ts k.1 i

cleanup_again :
    (ts : List (List ℕ)) → IsText ts → cleanup (cleanup (map line ts)) ≡ cleanup (map line ts)
unfolding cleanup
cleanup_again [] k = refl
cleanup_again (t ∷ ts) k =
    let once = cleanup_line-line t k.0 in
    let first =
      ap cleanup_line once
      ∙ cleanup_line-line (cleanup_body t) (cleanup_body-IsBody t k.0)
      ∙ ap line (cleanup_body_twice t)
      ∙ sym once in
    λ i. first i ∷ cleanup_again ts k.1 i

-- On a file whose lines all end with a newline, with a SHA-1 whose digests hold no newline and the same
-- files on the disk: a second update changes nothing more, and nor does a second cleanup; and a cleanup
-- after an update gives what a cleanup at once would have given.
pub rehash :
    (disk : List ℕ → File) (sha1 : List ℕ → List ℕ) (vendor_path : List ℕ) (ts : List (List ℕ))
    → ((bs : List ℕ) → IsBody (sha1 bs))
    → IsText ts
    → let ls = map line ts in
      let updated = update disk sha1 vendor_path false ls in
      (update disk sha1 vendor_path false updated ≡ updated)
      × (cleanup (cleanup ls) ≡ cleanup ls)
      × (cleanup updated ≡ cleanup ls)
rehash disk sha1 vendor_path ts digests k = (
  update_again disk sha1 vendor_path digests false ts k,
  cleanup_again ts k,
  cleanup-update disk sha1 vendor_path digests false ts k,
)
