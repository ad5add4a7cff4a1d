-- ===== src/Db/Sessions.antt =====
-- What the database layer knows of a file that openFile has opened.
use database_management_syst.Common.{
  ◌≡◌, refl, sym, ap, subst, ◌∙◌, Bool, true, false, Bool-cases, arith, inl, inr, List,
  if◌then◌else◌, ℕ, ◌<◌, ==_iff, eq_ℤ_iff, bytes_eq_iff, bytes_key,
}
use database_management_syst.Status.{
  Status, Res, ok, err, undefined, bad_file, file_open, file_exists,
}
use database_management_syst.Monad.{and_then, and_then-ok}
use database_management_syst.Platform.{Platform}
use database_management_syst.System.{Sys, FileObj}
use database_management_syst.HashTable
use database_management_syst.HashTable.{Buckets, write, find}
use database_management_syst.OpenFiles
use database_management_syst.OpenFiles.{FileTable}
use database_management_syst.Db.{
  is_empty, opened, open_object, create_file, destroy_file, enter_file, new_file, open_new,
  open_file,
}

-- A name that is inserted is found.
insert-found :
    (name : List ℕ) (file : ℕ) (t u : FileTable)
    → OpenFiles.insert name file t ≡ ok u
    → OpenFiles.find name u ≡ ok file
unfolding OpenFiles.insert OpenFiles.find HashTable.insert HashTable.lookup HashTable.find
insert-found name file t u e =
    ground (arith, bytes_eq_iff name name, eq_ℤ_iff (OpenFiles.hash name) (OpenFiles.hash name))

module _ {P : Platform} where
  guard-ok :
      (g : Bool) (x : Status) (u : Sys P) {t : Sys P} {file : ℕ} {r : Res ℕ × Sys P}
      → (if g then (err x, u) else r) ≡ (ok file, t)
      → r ≡ (ok file, t)
  guard-ok true x u e = absurd (ground arith)
  guard-ok false x u e = e

  open_object-open_files : (file : ℕ) (s : Sys P) → (open_object file s).1.open_files ≡ s.open_files
  unfolding open_object
  open_object-open_files file s = ground arith

  open_object-open_cnt :
      (file : ℕ) (s t : Sys P) → open_object file s ≡ (ok tt, t) → 0 < (t.files file).open_cnt
  unfolding open_object
  open_object-open_cnt file s t e = ground (arith, ==_iff file file)

  -- The file that name stands for is open: its File object is found, with a positive count, and
  -- neither destroyFile nor createFile touches anything.
  abbrev pub IsOpen : List ℕ → ℕ → Sys P → Type 0
  IsOpen name file t =
      (OpenFiles.find name t.open_files ≡ ok file)
      × (0 < (t.files file).open_cnt)
      × (destroy_file name t ≡ (err file_open, t))
      × (create_file name t ≡ (err file_exists, t))

  found-IsOpen :
      (name : List ℕ) (file : ℕ) (t : Sys P)
      → is_empty name ≡ false
      → OpenFiles.find name t.open_files ≡ ok file
      → 0 < (t.files file).open_cnt
      → IsOpen name file t
  unfolding destroy_file create_file
  found-IsOpen name file t full found count =
      (found, count, rw (full, found) refl, rw (full, found) refl)

  entered :
      (name : List ℕ) (file : ℕ) (u t : Sys P) (r : Res FileTable)
      → enter_file r u ≡ (ok tt, t)
      → (r ≡ ok t.open_files) × (u.files ≡ t.files)
  entered name file u t (ok x) e = (ap (λ y. ok y.1.open_files) e, ap (λ y. y.1.files) e)
  entered name file u t (err x) e = absurd (ground arith)
  entered name file u t undefined e = absurd (ground arith)

  -- The count of the file that a call returns is positive.
  abbrev Counted : Res ℕ × Sys P → Type 0
  Counted (ok file, t) = 0 < (t.files file).open_cnt
  Counted (err e, t) = Unit {0}
  Counted (undefined, t) = Unit {0}

  open_new-IsOpen :
      (name : List ℕ) (file : ℕ) (s t : Sys P)
      → is_empty name ≡ false
      → open_new name s ≡ (ok file, t)
      → IsOpen name file t
  unfolding open_new
  open_new-IsOpen name file s t full e =
      let (_, u, opened, e1) = and_then-ok _ (open_object s.next_file (new_file name s)) e in
      let (_, v, put, e2) =
        and_then-ok _ (enter_file (OpenFiles.insert name s.next_file u.open_files) u) e1 in
      let (inserted, kept) =
        entered name s.next_file u v (OpenFiles.insert name s.next_file u.open_files) put in
      let found = insert-found name s.next_file u.open_files v.open_files inserted in
      let count = open_object-open_cnt s.next_file (new_file name s) u opened in
      found-IsOpen name file t full
        (ap (λ y. OpenFiles.find name y.1.open_files) (sym e2) ∙ found ∙ ap (λ y. y.0) e2)
        (subst Counted e2 (subst (λ (fs : ℕ → FileObj). 0 < (fs s.next_file).open_cnt) kept count))

  known-IsOpen :
      (name : List ℕ) (file : ℕ) (s t : Sys P) (r : Res ℕ)
      → is_empty name ≡ false
      → OpenFiles.find name s.open_files ≡ r
      → (elim r [
        | ok old ↦ and_then (λ _ s'. (ok old, s')) (open_object old s)
        | err e ↦ open_new name s
        | undefined ↦ (undefined, s)
      ])
        ≡ (ok file, t)
      → IsOpen name file t
  known-IsOpen name file s t (ok old) full found e =
      let (_, u, opened, e1) = and_then-ok _ (open_object old s) e in
      let same = ap (λ y. y.1.open_files) (sym opened) ∙ open_object-open_files old s in
      found-IsOpen name file t full
        (ap (λ y. OpenFiles.find name y.1.open_files) (sym e1)
          ∙ ap (OpenFiles.find name) same
          ∙ found
          ∙ ap (λ y. y.0) e1)
        (subst Counted e1 (open_object-open_cnt old s u opened))
  known-IsOpen name file s t (err x) full found e = open_new-IsOpen name file s t full e
  known-IsOpen name file s t undefined full found e = absurd (ground arith)

  -- After a successful openFile, the name is found in the table of open files as the object that was
  -- returned, whose count is positive, and destroyFile and createFile of the name return FILEOPEN
  -- and FILEEXISTS and change nothing.
  pub open_file-IsOpen :
      (name : List ℕ) (file : ℕ) (s t : Sys P)
      → open_file name s ≡ (ok file, t)
      → IsOpen name file t
  unfolding open_file
  open_file-IsOpen name file s t e = elim (Bool-cases (is_empty name)) [
    | inl empty ↦ absurd (ground (arith, empty))
    | inr full ↦
        known-IsOpen name file s t (OpenFiles.find name s.open_files) full refl
          (guard-ok (is_empty name) bad_file s e)
  ]
