-- ===== src/Disk.antt =====
-- The directory of a log on disk. An open file's contents are its owner's (a store's or an index's)
-- and come back here when it is closed; the code never opens a file twice. Writes that fail for want
-- of disk space or by a hardware fault are left out.
pub mod Listing
use smolkafka.Prelude.{
  ℕ, ◌≡◌, refl, Bool, true, false, ◌&&◌, Option, none, some, List, [], ◌∷◌, arith, ◌==◌,
  if◌then◌else◌,
}
use smolkafka.Exec.{ok, err, not_exist, Exec}
use smolkafka.Bytes.{Bytes}

-- A file's name, by its character codes.
abbrev pub Name : Type 0
Name = List ℕ

abbrev pub name_eq : Name → Name → Bool
name_eq [] [] = true
name_eq [] (y ∷ ys) = false
name_eq (x ∷ xs) [] = false
name_eq (x ∷ xs) (y ∷ ys) = (x == y) && name_eq xs ys

pub name_eq_refl : (n : Name) → name_eq n n ≡ true
name_eq_refl [] = refl
name_eq_refl (x ∷ n) = ground (arith, name_eq_refl n)

pub eq_of_name_eq : (m n : Name) → name_eq m n ≡ true → m ≡ n
eq_of_name_eq [] [] h = refl
eq_of_name_eq [] (y ∷ n) h = cc
eq_of_name_eq (x ∷ m) [] h = cc
eq_of_name_eq (x ∷ m) (y ∷ n) h = ground (arith, eq_of_name_eq m n)

abbrev pub Files : Type 0
Files = List (Name × Bytes)

unfoldable pub lookup : Name → Files → Option Bytes
lookup n [] = none
lookup n ((m, b) ∷ fs) = if name_eq m n then some b else lookup n fs

unfoldable pub put : Name → Bytes → Files → Files
put n b [] = (n, b) ∷ []
put n b ((m, c) ∷ fs) = if name_eq m n then (n, b) ∷ fs else (m, c) ∷ put n b fs

-- `os.Remove`.
unfoldable pub without : Name → Files → Files
without n [] = []
without n ((m, c) ∷ fs) = let rest = without n fs in if name_eq m n then rest else (m, c) ∷ rest

pub lookup-put :
    (n m : Name) (b : Bytes) (fs : Files)
    → lookup m (put n b fs) ≡ (if name_eq n m then some b else lookup m fs)
unfolding lookup put
lookup-put n m b [] = refl
lookup-put n m b ((k, c) ∷ fs) = ground (
  arith,
  eq_of_name_eq k n,
  eq_of_name_eq k m,
  eq_of_name_eq n m,
  name_eq_refl n,
  name_eq_refl m,
  lookup-put n m b fs,
)

-- `l.Dir`, which may have been removed.
pub record Dir : Type 0 where
  pub exists : Bool
  pub files : Files

-- `os.OpenFile` with O_CREATE: the contents of the file.
unfoldable pub open_file : Name → Exec Dir Bytes
open_file n d =
    if d.exists
    then (elim (lookup n d.files) [
      | none ↦ (ok [], record d { files = put n [] d.files })
      | some b ↦ (ok b, d)
    ])
    else (err not_exist, d)

-- What a file holds when its owner has changed it.
unfoldable pub save : Name → Bytes → Dir → Dir
save n b d = record d { files = put n b d.files }

-- `os.Remove`.
unfoldable pub remove_file : Name → Exec Dir Unit
remove_file n d =
    if d.exists
    then (elim (lookup n d.files) [
      | none ↦ (err not_exist, d)
      | some b ↦ (ok tt, record d { files = without n d.files })
    ])
    else (err not_exist, d)

-- `os.RemoveAll` of the directory itself.
unfoldable pub remove_all : Exec Dir Unit
remove_all d = (ok tt, record { exists = false; files = [] })

pub open_file-some :
    (n : Name) (b : Bytes) (d : Dir)
    → d.exists ≡ true
    → lookup n d.files ≡ some b
    → open_file n d ≡ (ok b, d)
unfolding open_file
open_file-some n b d e h = ground arith

pub open_file-none :
    (n : Name) (d : Dir)
    → d.exists ≡ true
    → lookup n d.files ≡ none
    → open_file n d ≡ (ok [], record d { files = put n [] d.files })
unfolding open_file
open_file-none n d e h = ground arith

pub lookup-without :
    (n m : Name) (fs : Files)
    → lookup m (without n fs) ≡ (if name_eq n m then none else lookup m fs)
unfolding lookup without
lookup-without n m [] = ground arith
lookup-without n m ((k, c) ∷ fs) = ground (
  arith,
  eq_of_name_eq k n,
  eq_of_name_eq k m,
  eq_of_name_eq n m,
  name_eq_refl n,
  name_eq_refl m,
  lookup-without n m fs,
)

pub remove_file-some :
    (n : Name) (b : Bytes) (d : Dir)
    → d.exists ≡ true
    → lookup n d.files ≡ some b
    → remove_file n d ≡ (ok tt, record d { files = without n d.files })
unfolding remove_file
remove_file-some n b d e h = ground arith
