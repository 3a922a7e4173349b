-- ===== src/Build/Examples.antt =====
-- shims/patch_elf.py on a small table (the strings `ab`, `xab` and `c`, and two bytes after them), and
-- update-sha1sums.py on a list with a pinned section, one of whose files is there.
use android_device_realme_sa.Base.{
  List, [], elem, false, if◌then◌else◌, ltb, map, refl, some, true, ℕ, ◌∷◌, ◌≡◌,
}
use android_device_realme_sa.Build.PatchElf.{patch_elf, returned}
use android_device_realme_sa.Build.Sha1Sums.{File, bytes, cleanup, missing, update}
use android_device_realme_sa.Build.Hashes.{line}
use android_device_realme_sa.Build.Rehash.{rehash}
use android_device_realme_sa.Build.Patching.{found_in, patch_elf-swapped, swapped}

abbrev old_name : List ℕ
old_name = 97 ∷ 98 ∷ []

abbrev new_name : List ℕ
new_name = 97 ∷ 99 ∷ []

abbrev table : List ℕ
table = 97 ∷ 98 ∷ 0 ∷ 120 ∷ 97 ∷ 98 ∷ 0 ∷ 99 ∷ 0 ∷ 97 ∷ 98 ∷ []

abbrev patched_table : List ℕ
patched_table = 97 ∷ 99 ∷ 0 ∷ 120 ∷ 97 ∷ 99 ∷ 0 ∷ 99 ∷ 0 ∷ 97 ∷ 98 ∷ []

-- Run as the source does it.
table_patched : patch_elf old_name new_name (some table) ≡ some (returned true, some patched_table)
unfolding patch_elf
table_patched = refl

patch_elf-swapped_example :
    patch_elf old_name new_name (some table)
    ≡ some (returned (ltb 0 (found_in old_name table)), some (swapped old_name new_name table))
patch_elf-swapped_example = patch_elf-swapped old_name new_name table (refl, (refl, tt)) refl

-- A path with the letter `a` holds a byte, and there is no other file.
abbrev on_disk : List ℕ → File
on_disk path = if elem 97 path then bytes (1 ∷ []) else missing

abbrev digest : List ℕ → List ℕ
digest bs = 48 ∷ 102 ∷ []

-- The texts `a - from b`, with the mark of a comment, `a|9`, `-b` and, after an empty line, `#` and `a|9`.
abbrev entry_list : List (List ℕ)
entry_list =
    (35 ∷ 97 ∷ 32 ∷ 45 ∷ 32 ∷ 102 ∷ 114 ∷ 111 ∷ 109 ∷ 98 ∷ [])
    ∷ (97 ∷ 124 ∷ 57 ∷ [])
    ∷ (45 ∷ 98 ∷ [])
    ∷ []
    ∷ (35 ∷ [])
    ∷ (97 ∷ 124 ∷ 57 ∷ [])
    ∷ []

-- The first run: only the entry below the pinning comment gets its digest.
entry_list_updated :
    update on_disk digest (118 ∷ []) false (map line entry_list)
    ≡ line (35 ∷ 97 ∷ 32 ∷ 45 ∷ 32 ∷ 102 ∷ 114 ∷ 111 ∷ 109 ∷ 98 ∷ [])
      ∷ line (97 ∷ 124 ∷ 48 ∷ 102 ∷ [])
      ∷ line (45 ∷ 98 ∷ [])
      ∷ line []
      ∷ line (35 ∷ [])
      ∷ line (97 ∷ 124 ∷ 57 ∷ [])
      ∷ []
unfolding update
entry_list_updated = refl

rehash_example :
    let ls = map line entry_list in
    let updated = update on_disk digest (118 ∷ []) false ls in
    (update on_disk digest (118 ∷ []) false updated ≡ updated)
    × (cleanup (cleanup ls) ≡ cleanup ls)
    × (cleanup updated ≡ cleanup ls)
rehash_example =
    rehash on_disk digest (118 ∷ []) entry_list (λ bs. (refl, (refl, tt)))
      (
        (refl, (refl, (refl, (refl, (refl, (refl, (refl, (refl, (refl, (refl, tt)))))))))),
        (
          (refl, (refl, (refl, tt))),
          ((refl, (refl, tt)), (tt, ((refl, tt), ((refl, (refl, (refl, tt))), tt)))),
        ),
      )
