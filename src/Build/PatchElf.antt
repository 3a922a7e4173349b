-- ===== src/Build/PatchElf.antt =====
-- shims/patch_elf.py: a library's name in the string tables of a binary gives way to another name of
-- the same length.
--
-- Files and names are lists of bytes. Reading and writing a file that exists is taken to succeed.
use android_device_realme_sa.Base.{
  Bool, List, Option, [], drop, false, if◌then◌else◌, length, map_option, none, some, suc, take,
  true, zero, ℕ, ◌&&◌, ◌++◌, ◌+◌, ◌==◌, ◌∷◌,
}

-- Whether a text starts with the needle.
unfoldable pub starts_with : List ℕ → List ℕ → Bool
starts_with [] bs = true
starts_with (c ∷ cs) [] = false
starts_with (c ∷ cs) (b ∷ bs) = (c == b) && starts_with cs bs

-- The offset of the first occurrence.
unfoldable pub find_first : List ℕ → List ℕ → Option ℕ
unfolding starts_with
find_first needle [] = if starts_with needle [] then some 0 else none
find_first needle (b ∷ bs) =
    let later = find_first needle bs in
    if starts_with needle (b ∷ bs) then some 0 else map_option (λ i. suc i) later

-- data.find(needle, idx), at an offset within the data: `none` for -1.
unfoldable pub find : List ℕ → List ℕ → ℕ → Option ℕ
unfolding find_first
find needle contents idx = map_option (λ i. idx + i) (find_first needle (drop idx contents))

-- data[idx:idx+n] = bytes
unfoldable pub assign_slice : ℕ → ℕ → List ℕ → List ℕ → List ℕ
assign_slice idx n bytes contents = take idx contents ++ bytes ++ drop (idx + n) contents

-- The loop, on fuel: the data and the count at its end.
unfoldable pub patch_loop : ℕ → List ℕ → List ℕ → ℕ → ℕ → List ℕ → Option (List ℕ × ℕ)
unfolding find assign_slice
patch_loop zero old_bytes new_bytes idx count contents = none
patch_loop (suc fuel) old_bytes new_bytes idx count contents = elim (find old_bytes contents idx) [
  | none ↦ some (contents, count)
  | some i ↦
      patch_loop fuel old_bytes new_bytes (i + length old_bytes) (count + 1)
        (assign_slice i (length old_bytes) new_bytes contents)
]

-- ValueError, or the result.
pub data Outcome : Type 0 where
  value_error : Outcome
  returned : Bool → Outcome

-- What is done with the file that was read.
unfoldable pub patch_file : List ℕ → List ℕ → List ℕ → Option (Outcome × Option (List ℕ))
unfolding patch_loop
patch_file old_lib new_lib contents =
    elim (patch_loop (suc (length contents)) (old_lib ++ 0 ∷ []) (new_lib ++ 0 ∷ []) 0 0 contents) [
      | none ↦ none
      | some (patched, count) ↦
          some
            (if count == 0 then (returned false, some contents) else (returned true, some patched))
    ]

-- patch_elf: its outcome, and the file after it. `none` for the file is one that does not exist;
-- `none` for the result, fuel that was not enough.
unfoldable pub patch_elf : List ℕ → List ℕ → Option (List ℕ) → Option (Outcome × Option (List ℕ))
unfolding patch_file
patch_elf old_lib new_lib file =
    if length old_lib == length new_lib
    then elim file [
      | none ↦ some (returned false, none)
      | some contents ↦ patch_file old_lib new_lib contents
    ]
    else some (value_error, file)
