-- ===== src/Build/Split.antt =====
-- shims/patch_elf.py: the zero-terminated strings of a binary, and what follows them.
use android_device_realme_sa.Base.{
  All, Bool-cases, List, [], ap, arith, false, if◌then◌else◌, inl, inr, refl, true, ℕ, ◌==◌, ◌∷◌,
  ◌≡◌,
}
use android_device_realme_sa.Build.Strings.{IsName, text}

abbrev prepend : ℕ → List (List ℕ) × List ℕ → List (List ℕ) × List ℕ
prepend b ([], tail) = ([], b ∷ tail)
prepend b (s ∷ ss, tail) = ((b ∷ s) ∷ ss, tail)

-- The strings of a binary, and what follows the last zero byte.
unfoldable pub strings : List ℕ → List (List ℕ) × List ℕ
strings [] = ([], [])
strings (b ∷ bs) =
    let (ss, tail) = strings bs in if b == 0 then ([] ∷ ss, tail) else prepend b (ss, tail)

-- The parts of a binary as the lemmas on strings want them.
pub record IsSplit (contents : List ℕ) (o : List (List ℕ) × List ℕ) : Type 0 where
  pub whole : text o.0 o.1 ≡ contents
  pub names : All IsName o.0
  pub tail_name : IsName o.1

prepend-IsSplit :
    (b : ℕ) (bs : List ℕ) (o : List (List ℕ) × List ℕ)
    → (b == 0) ≡ false
    → IsSplit bs o
    → IsSplit (b ∷ bs) (prepend b o)
prepend-IsSplit b bs ([], tail) e i = record {
  whole = ap (λ xs. b ∷ xs) i.whole;
  names = tt;
  tail_name = (e, i.tail_name);
}
prepend-IsSplit b bs (s ∷ ss, tail) e i = record {
  whole = ap (λ xs. b ∷ xs) i.whole;
  names = ((e, i.names.0), i.names.1);
  tail_name = i.tail_name;
}

end-IsSplit :
    (b : ℕ) (bs : List ℕ) (o : List (List ℕ) × List ℕ)
    → (b == 0) ≡ true
    → IsSplit bs o
    → IsSplit (b ∷ bs) ([] ∷ o.0, o.1)
end-IsSplit b bs o e i =
    let zero_byte : 0 ≡ b = ground arith in
    record { whole = λ j. zero_byte j ∷ i.whole j; names = (tt, i.names); tail_name = i.tail_name }

pub strings-IsSplit : (contents : List ℕ) → IsSplit contents (strings contents)
unfolding strings
strings-IsSplit [] = record { whole = refl; names = tt; tail_name = tt }
strings-IsSplit (b ∷ bs) = elim (Bool-cases (b == 0)) [
  | inl e ↦ rw e (end-IsSplit b bs (strings bs) e (strings-IsSplit bs))
  | inr e ↦ rw e (prepend-IsSplit b bs (strings bs) e (strings-IsSplit bs))
]
