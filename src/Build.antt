-- ===== src/Build.antt =====
-- The scripts of the build.
pub mod PatchElf
pub mod Strings
pub mod Split
pub mod Swap
pub mod PatchLaws
pub mod Patching
pub mod Sha1Sums
pub mod Hashes
pub mod Rehash
pub mod Reorder
pub mod Keys
pub mod Plain
pub mod Sorting
pub mod Sections
pub mod ReorderFile
pub mod Texts
pub mod Trim
pub mod Rewriting
mod Examples
mod ReorderExamples
