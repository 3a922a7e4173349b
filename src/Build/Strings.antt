-- ===== src/Build/Strings.antt =====
-- shims/patch_elf.py: a binary read as strings that end in a zero byte, and where the loop finds a
-- name in it.
use mathlib.Core.List.{append_assoc}
use android_device_realme_sa.Base.{
  All, Bool, Bool-cases, List, [], ap, arith, false, if◌then◌else◌, inl, inr, length, map, none,
  refl, some, suc, sym, true, ℕ, ◌&&◌, ◌++◌, ◌==◌, ◌||◌, ◌∙◌, ◌∷◌, ◌≡◌,
}
use android_device_realme_sa.Build.PatchElf.{find_first, starts_with}

-- A text without a zero byte.
abbrev pub IsName : List ℕ → Type 0
IsName = All λ b. (b == 0) ≡ false

-- Strings, each with its zero byte, and the bytes after the last zero byte.
abbrev pub text : List (List ℕ) → List ℕ → List ℕ
text [] tail = tail
text (s ∷ ss) tail = s ++ 0 ∷ text ss tail

abbrev pub same : List ℕ → List ℕ → Bool
same [] [] = true
same [] (b ∷ bs) = false
same (c ∷ cs) [] = false
same (c ∷ cs) (b ∷ bs) = (c == b) && same cs bs

abbrev pub ends_with : List ℕ → List ℕ → Bool
ends_with old [] = same old []
ends_with old (b ∷ bs) = same old (b ∷ bs) || ends_with old bs

-- A string with the end `old` gets the end `new` instead.
abbrev pub swap : List ℕ → List ℕ → List ℕ → List ℕ
swap old new [] = if same old [] then new else []
swap old new (b ∷ bs) = let rest = swap old new bs in if same old (b ∷ bs) then new else b ∷ rest

abbrev pub occurrences : List ℕ → List (List ℕ) → ℕ
occurrences old [] = 0
occurrences old (s ∷ ss) =
    let rest = occurrences old ss in if ends_with old s then suc rest else rest

pub same-eq : (cs bs : List ℕ) → same cs bs ≡ true → cs ≡ bs
same-eq [] [] e = refl
same-eq [] (b ∷ bs) e = ground arith
same-eq (c ∷ cs) [] e = ground arith
same-eq (c ∷ cs) (b ∷ bs) e = elim (Bool-cases (same cs bs)) [
  | inl t ↦ ground (arith, same-eq cs bs t)
  | inr f ↦ ground arith
]

starts_with-string :
    (old s rest : List ℕ)
    → IsName old
    → IsName s
    → starts_with (old ++ 0 ∷ []) (s ++ 0 ∷ rest) ≡ same old s
unfolding starts_with
starts_with-string [] [] rest h k = ground arith
starts_with-string [] (b ∷ bs) rest h k = ground (arith, k.0)
starts_with-string (c ∷ cs) [] rest h k = ground (arith, h.0)
starts_with-string (c ∷ cs) (b ∷ bs) rest h k =
    ground (arith, starts_with-string cs bs rest h.1 k.1)

starts_with-tail : (old tail : List ℕ) → IsName tail → starts_with (old ++ 0 ∷ []) tail ≡ false
unfolding starts_with
starts_with-tail [] [] k = refl
starts_with-tail [] (b ∷ bs) k = ground (arith, k.0)
starts_with-tail (c ∷ cs) [] k = refl
starts_with-tail (c ∷ cs) (b ∷ bs) k = ground (arith, starts_with-tail cs bs k.1)

find_first-tail : (old tail : List ℕ) → IsName tail → find_first (old ++ 0 ∷ []) tail ≡ none
unfolding find_first
find_first-tail old [] k = rw (starts_with-tail old [] k) refl
find_first-tail old (b ∷ bs) k =
    rw (starts_with-tail old (b ∷ bs) k, find_first-tail old bs k.1) refl

find_first-start :
    (needle rest : List ℕ) → starts_with needle rest ≡ true → find_first needle rest ≡ some 0
unfolding find_first
find_first-start needle [] e = rw e refl
find_first-start needle (b ∷ bs) e = rw e refl

module _ (old new tail : List ℕ) (old_name : IsName old) where
  abbrev swap_each : List (List ℕ) → List (List ℕ)
  swap_each = map (swap old new)

  -- Where the search ends in `rest`, of which `patched` is what the loop should make, with `n` names
  -- to be found.
  pub data Search (rest patched : List ℕ) (n : ℕ) : Type 0 where
    absent : find_first (old ++ 0 ∷ []) rest ≡ none → patched ≡ rest → n ≡ 0 → Search rest patched n
    found :
        (a : List ℕ) (ss : List (List ℕ))
        → All IsName ss
        → find_first (old ++ 0 ∷ []) rest ≡ some (length a)
        → rest ≡ a ++ (old ++ 0 ∷ []) ++ text ss tail
        → patched ≡ a ++ (new ++ 0 ∷ []) ++ text (swap_each ss) tail
        → n ≡ suc (occurrences old ss)
        → Search rest patched n

  step-Search :
      (b : ℕ) (rest patched : List ℕ) (n : ℕ)
      → starts_with (old ++ 0 ∷ []) (b ∷ rest) ≡ false
      → Search rest patched n
      → Search (b ∷ rest) (b ∷ patched) n
  unfolding find_first
  step-Search b rest patched n miss (absent f e z) =
      absent (rw (miss, f) refl) (ap (λ xs. b ∷ xs) e) z
  step-Search b rest patched n miss (found a ss k f e e' z) =
      found (b ∷ a) ss k (rw (miss, f) refl) (ap (λ xs. b ∷ xs) e) (ap (λ xs. b ∷ xs) e') z

  found-Search :
      (s : List ℕ) (ss : List (List ℕ))
      → All IsName ss
      → IsName s
      → same old s ≡ true
      → Search
          (s ++ 0 ∷ text ss tail)
          (new ++ 0 ∷ text (swap_each ss) tail)
          (suc (occurrences old ss))
  found-Search s ss ks k e =
      found [] ss ks
        (find_first-start (old ++ 0 ∷ []) (s ++ 0 ∷ text ss tail)
          (starts_with-string old s (text ss tail) old_name k ∙ e))
        (ap (λ xs. xs ++ 0 ∷ text ss tail) (sym (same-eq old s e))
          ∙ sym (append_assoc old (0 ∷ []) (text ss tail)))
        (sym (append_assoc new (0 ∷ []) (text (swap_each ss) tail))) refl

  string-Search :
      (s : List ℕ) (ss : List (List ℕ))
      → All IsName ss
      → IsName s
      → Search (text ss tail) (text (swap_each ss) tail) (occurrences old ss)
      → Search (text (s ∷ ss) tail) (text (swap_each (s ∷ ss)) tail) (occurrences old (s ∷ ss))
  string-Search [] ss ks k later = elim (Bool-cases (same old [])) [
    | inl e ↦ rw e (found-Search [] ss ks k e)
    | inr e ↦
        rw e (step-Search 0 _ _ _ (starts_with-string old [] (text ss tail) old_name k ∙ e) later)
  ]
  string-Search (b ∷ bs) ss ks k later = elim (Bool-cases (same old (b ∷ bs))) [
    | inl e ↦ rw e (found-Search (b ∷ bs) ss ks k e)
    | inr e ↦ rw e (
        step-Search b _ _ _ (starts_with-string old (b ∷ bs) (text ss tail) old_name k ∙ e)
          (string-Search bs ss ks k.1 later))
  ]

  pub text-Search :
      (ss : List (List ℕ))
      → All IsName ss
      → IsName tail
      → Search (text ss tail) (text (swap_each ss) tail) (occurrences old ss)
  text-Search [] k t = absent (find_first-tail old tail t) refl refl
  text-Search (s ∷ ss) k t = string-Search s ss k.1 k.0 (text-Search ss k.1 t)
