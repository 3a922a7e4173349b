-- ===== src/Build/Sha1Sums.antt =====
-- update-sha1sums.py: the hashes behind the entries of proprietary-files.txt.
--
-- A line is the list of its character codes, its newline included. The disk and SHA-1 are not part of
-- this repository: what a path holds, and the digest of a file, are arguments.
use android_device_realme_sa.Base.{
  Bool, List, Option, [], drop, elem, false, get_or_else, if◌then◌else◌, is_empty, is_some, map,
  map_option, none, some, ℕ, ◌&&◌, ◌++◌, ◌==◌, ◌||◌, ◌∷◌,
}
use android_device_realme_sa.Build.PatchElf.{find_first}

-- os.path.exists, open and read of a path.
pub data File : Type 0 where
  missing unreadable : File
  bytes : List ℕ → File

-- line.rstrip('\n')
unfoldable pub rstrip_newline : List ℕ → List ℕ
rstrip_newline [] = []
rstrip_newline (c ∷ cs) =
    let rest = rstrip_newline cs in if (c == 10) && is_empty rest then [] else c ∷ rest

-- line.split(c)[0]
unfoldable pub before : ℕ → List ℕ → List ℕ
before c [] = []
before c (d ∷ ds) = let rest = before c ds in if d == c then [] else d ∷ rest

-- What stands after the first `c`, if there is one: the text of line.split(c)[1] and the parts after it.
unfoldable pub after : ℕ → List ℕ → Option (List ℕ)
after c [] = none
after c (d ∷ ds) = let rest = after c ds in if d == c then some ds else rest

-- line.startswith(c)
unfoldable pub begins_with : ℕ → List ℕ → Bool
begins_with c [] = false
begins_with c (d ∷ ds) = d == c

-- ' - from' in line
unfoldable pub is_pinned : List ℕ → Bool
unfolding find_first
is_pinned line = is_some (find_first (32 ∷ 45 ∷ 32 ∷ 102 ∷ 114 ∷ 111 ∷ 109 ∷ []) line)

-- line.split(c)[1] if c in line else line
unfoldable pub second_part : ℕ → List ℕ → List ℕ
unfolding before after
second_part c line = get_or_else (map_option (before c) (after c line)) line

-- update: needSHA1 after a line; a comment sets it.
unfoldable pub next_need : Bool → List ℕ → Bool
unfolding rstrip_newline begins_with is_pinned
next_need need_sha1 l =
    let line = rstrip_newline l in if begins_with 35 line then is_pinned line else need_sha1

-- The path of an entry: the target of a copy, without parameters and without the mark `-`.
unfoldable pub file_path : List ℕ → List ℕ
unfolding second_part begins_with
file_path entry =
    let plain = before 59 (second_part 58 entry) in
    if begins_with 45 plain then drop 1 plain else plain

-- os.path.join(vendorPath, path); the vendor path ends with no slash.
unfoldable pub join : List ℕ → List ℕ → List ℕ
unfolding begins_with
join vendor_path path = if begins_with 47 path then path else vendor_path ++ 47 ∷ path

-- cleanup: the line that takes the place of a line.
unfoldable pub cleanup_line : List ℕ → List ℕ
unfolding rstrip_newline before begins_with
cleanup_line l =
    let line = rstrip_newline l in
    if is_empty line || begins_with 35 line
    then l
    else if elem 124 line
    then before 124 line ++ 10 ∷ []
    else l

unfoldable pub cleanup : List (List ℕ) → List (List ℕ)
unfolding cleanup_line
cleanup = map cleanup_line

module _ (disk : List ℕ → File) (sha1 : List ℕ → List ℕ) (vendor_path : List ℕ) where
  -- The entry with the digest of its file; the line is kept where there is none.
  unfoldable pub with_hash : List ℕ → List ℕ → File → List ℕ
  with_hash l entry missing = l
  with_hash l entry unreadable = l
  with_hash l entry (bytes bs) = entry ++ 124 ∷ (sha1 bs ++ 10 ∷ [])

  -- update: the line that takes the place of an entry.
  unfoldable pub update_entry : List ℕ → List ℕ → List ℕ
  unfolding before file_path join with_hash
  update_entry l line =
      let entry = before 124 line in with_hash l entry (disk (join vendor_path (file_path entry)))

  -- update: the line that takes the place of a line.
  unfoldable pub update_line : Bool → List ℕ → List ℕ
  unfolding rstrip_newline begins_with update_entry
  update_line need_sha1 l =
      let line = rstrip_newline l in
      if is_empty line || begins_with 35 line
      then l
      else if need_sha1
      then update_entry l line
      else l

  -- update: the loop, with needSHA1.
  unfoldable pub update : Bool → List (List ℕ) → List (List ℕ)
  unfolding next_need update_line
  update need_sha1 [] = []
  update need_sha1 (l ∷ ls) = update_line need_sha1 l ∷ update (next_need need_sha1 l) ls
