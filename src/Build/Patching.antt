-- ===== src/Build/Patching.antt =====
-- shims/patch_elf.py: what the script does to any binary.
use android_device_realme_sa.Base.{
  All, List, [], ap, arith, false, length, ltb, map, refl, some, sym, ℕ, ◌∙◌, ◌∷◌, ◌≡◌,
}
use android_device_realme_sa.Build.PatchElf.{patch_elf, returned}
use android_device_realme_sa.Build.Strings.{IsName, ends_with, occurrences, swap, text}
use android_device_realme_sa.Build.Swap.{swap-IsName, swap-back, swap-ends}
use android_device_realme_sa.Build.Split.{strings, strings-IsSplit}
use android_device_realme_sa.Build.PatchLaws.{patch_elf-strings}

-- The binary with `new` in place of `old` at the end of each of its strings.
abbrev pub swapped : List ℕ → List ℕ → List ℕ → List ℕ
swapped old new contents = text (map (swap old new) (strings contents).0) (strings contents).1

-- How many of its strings end with the name.
abbrev pub found_in : List ℕ → List ℕ → ℕ
found_in lib contents = occurrences lib (strings contents).0

module _ (old new : List ℕ) (same_length : length old ≡ length new) where
  -- The strings after a run, where none ended with the new name before.
  record IsSwapped (ss : List (List ℕ)) : Type 0 where
    pub names : All IsName (map (swap old new) ss)
    pub counted : occurrences new (map (swap old new) ss) ≡ occurrences old ss
    pub back : map (swap new old) (map (swap old new) ss) ≡ ss

  swap-IsSwapped :
      (ss : List (List ℕ)) → IsName new → All IsName ss → occurrences new ss ≡ 0 → IsSwapped ss
  swap-IsSwapped [] n k e = record { names = tt; counted = refl; back = refl }
  swap-IsSwapped (s ∷ ss) n k e =
      let fresh : ends_with new s ≡ false = ground arith in
      let rest : occurrences new ss ≡ 0 = ground arith in
      let later = swap-IsSwapped ss n k.1 rest in
      record {
        names = (swap-IsName old new same_length s n k.0, later.names);
        counted = rw (swap-ends old new same_length s fresh, later.counted) refl;
        back = λ i. swap-back old new same_length s fresh i ∷ later.back i;
      }

-- On every binary, with two names of one length and no zero byte in the old one: the script gives each
-- zero-terminated string that ends with the old name the new one as its end, keeps all other bytes,
-- and returns whether there was such a string. The string may be longer than the name.
pub patch_elf-swapped :
    (old_lib new_lib contents : List ℕ)
    → IsName old_lib
    → length old_lib ≡ length new_lib
    → patch_elf old_lib new_lib (some contents)
      ≡ some (returned (ltb 0 (found_in old_lib contents)), some (swapped old_lib new_lib contents))
patch_elf-swapped old_lib new_lib contents name same_length =
    let parts = strings-IsSplit contents in
    ap (λ c. patch_elf old_lib new_lib (some c)) (sym parts.whole)
    ∙ patch_elf-strings old_lib new_lib _ _ name parts.tail_name parts.names same_length

-- A binary in which no string ends with the new name is restored by a second run with the names
-- exchanged, if these have one length and no zero byte.
patch_elf-back :
    (old_lib new_lib contents : List ℕ)
    → IsName old_lib
    → IsName new_lib
    → length old_lib ≡ length new_lib
    → found_in new_lib contents ≡ 0
    → let b = ltb 0 (found_in old_lib contents) in
      let patched = swapped old_lib new_lib contents in
      (patch_elf old_lib new_lib (some contents) ≡ some (returned b, some patched))
      × (patch_elf new_lib old_lib (some patched) ≡ some (returned b, some contents))
patch_elf-back old_lib new_lib contents old_name new_name same_length fresh =
    let parts = strings-IsSplit contents in
    let (ss, tail) = strings contents in
    let after = swap-IsSwapped old_lib new_lib same_length ss new_name parts.names fresh in
    (
      patch_elf-swapped old_lib new_lib contents old_name same_length,
      patch_elf-strings new_lib old_lib tail (map (swap old_lib new_lib) ss) new_name
            parts.tail_name after.names (sym same_length)
          ∙ (λ i. some (
            returned (ltb 0 (after.counted i)),
            some ((ap (λ rs. text rs tail) after.back ∙ parts.whole) i),
          )),
    )
