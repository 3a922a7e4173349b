-- ===== src/Build/Swap.antt =====
-- shims/patch_elf.py: the ends of strings, and how one name takes the place of another.
use android_device_realme_sa.Base.{
  Bool-cases, List, [], ap, arith, false, inl, inr, length, refl, suc, sym, true, ℕ, ◌<◌, ◌∙◌, ◌∷◌,
  ◌≡◌, ◌≤◌,
}
use android_device_realme_sa.Build.Strings.{IsName, ends_with, same, same-eq, swap}

same_refl : (cs : List ℕ) → same cs cs ≡ true
same_refl [] = refl
same_refl (c ∷ cs) = ground (arith, same_refl cs)

same-length : (cs bs : List ℕ) → same cs bs ≡ true → length cs ≡ length bs
same-length cs bs e = ap length (same-eq cs bs e)

longer : (cs bs : List ℕ) → length cs < length bs → same cs bs ≡ false
longer cs bs h = elim (Bool-cases (same cs bs)) [
  | inl e ↦ absurd (omega (arith, same-length cs bs e))
  | inr e ↦ e
]

swap-whole : (old new : List ℕ) → swap old new old ≡ new
swap-whole [] new = refl
swap-whole (c ∷ cs) new = rw (same_refl (c ∷ cs)) refl

ends_with-whole : (s : List ℕ) → ends_with s s ≡ true
ends_with-whole [] = refl
ends_with-whole (b ∷ bs) = rw (same_refl (b ∷ bs)) refl

-- A string that is not the name as a whole ends with it if its rest does.
ends_with-rest :
    (old : List ℕ) (b : ℕ) (bs : List ℕ)
    → same old (b ∷ bs) ≡ false
    → ends_with old (b ∷ bs) ≡ ends_with old bs
ends_with-rest old b bs e = rw e refl

swap-rest :
    (old new : List ℕ) (b : ℕ) (bs : List ℕ)
    → same old (b ∷ bs) ≡ false
    → swap old new (b ∷ bs) ≡ b ∷ swap old new bs
swap-rest old new b bs e = rw e refl

not_whole :
    (old : List ℕ) (b : ℕ) (bs : List ℕ)
    → ends_with old (b ∷ bs) ≡ false
    → (same old (b ∷ bs) ≡ false) × (ends_with old bs ≡ false)
not_whole old b bs e = ground arith

ends_with-length : (old s : List ℕ) → ends_with old s ≡ true → length old ≤ length s
ends_with-length old [] e = omega (arith, same-length old [] e)
ends_with-length old (b ∷ bs) e = elim (Bool-cases (same old (b ∷ bs))) [
  | inl f ↦ omega (arith, same-length old (b ∷ bs) f)
  | inr f ↦
      let h : length old ≤ length bs =
        ends_with-length old bs (sym (ends_with-rest old b bs f) ∙ e) in
      omega (arith, h)
]

pub swap-none : (old new s : List ℕ) → ends_with old s ≡ false → swap old new s ≡ s
swap-none old new [] e = rw e refl
swap-none old new (b ∷ bs) e =
    let (f, later) = not_whole old b bs e in
    swap-rest old new b bs f ∙ ap (λ xs. b ∷ xs) (swap-none old new bs later)

module _ (old new : List ℕ) (same_length : length old ≡ length new) where
  swap-length : (s : List ℕ) → length (swap old new s) ≡ length s
  swap-length [] = elim (Bool-cases (same old [])) [
    | inl e ↦ rw e (omega (arith, same_length, same-length old [] e))
    | inr e ↦ rw e refl
  ]
  swap-length (b ∷ bs) = elim (Bool-cases (same old (b ∷ bs))) [
    | inl e ↦ rw e (omega (arith, same_length, same-length old (b ∷ bs) e))
    | inr e ↦ rw e (ap (λ n. suc n) (swap-length bs))
  ]

  -- What is written in place of a part of a string does not make the whole the new name.
  still_not :
      (b : ℕ) (bs : List ℕ)
      → ends_with new (b ∷ bs) ≡ false
      → same new (b ∷ swap old new bs) ≡ false
  still_not b bs e = elim (Bool-cases (ends_with old bs)) [
    | inl f ↦
        longer new (b ∷ swap old new bs)
          (omega (arith, same_length, swap-length bs, ends_with-length old bs f))
    | inr f ↦ ap (λ xs. same new (b ∷ xs)) (swap-none old new bs f) ∙ (not_whole new b bs e).0
  ]

  pub swap-back : (s : List ℕ) → ends_with new s ≡ false → swap new old (swap old new s) ≡ s
  swap-back [] e = elim (Bool-cases (same old [])) [
    | inl f ↦ rw f (swap-whole new old ∙ same-eq old [] f)
    | inr f ↦ rw (f, e) refl
  ]
  swap-back (b ∷ bs) e = elim (Bool-cases (same old (b ∷ bs))) [
    | inl f ↦ rw f (swap-whole new old ∙ same-eq old (b ∷ bs) f)
    | inr f ↦
        ap (swap new old) (swap-rest old new b bs f)
        ∙ swap-rest new old b (swap old new bs) (still_not b bs e)
        ∙ ap (λ xs. b ∷ xs) (swap-back bs (not_whole new b bs e).1)
  ]

  pub swap-ends :
      (s : List ℕ) → ends_with new s ≡ false → ends_with new (swap old new s) ≡ ends_with old s
  swap-ends [] e = elim (Bool-cases (same old [])) [
    | inl f ↦ rw f (ends_with-whole new)
    | inr f ↦ rw (f, e) refl
  ]
  swap-ends (b ∷ bs) e = elim (Bool-cases (same old (b ∷ bs))) [
    | inl f ↦ rw f (ends_with-whole new)
    | inr f ↦
        ap (ends_with new) (swap-rest old new b bs f)
        ∙ ends_with-rest new b (swap old new bs) (still_not b bs e)
        ∙ swap-ends bs (not_whole new b bs e).1
        ∙ sym (ends_with-rest old b bs f)
  ]

  pub swap-IsName : (s : List ℕ) → IsName new → IsName s → IsName (swap old new s)
  swap-IsName [] n k = elim (Bool-cases (same old [])) [ inl f ↦ rw f n | inr f ↦ rw f tt ]
  swap-IsName (b ∷ bs) n k = elim (Bool-cases (same old (b ∷ bs))) [
    | inl f ↦ rw f n
    | inr f ↦ rw f (k.0, swap-IsName bs n k.1)
  ]
