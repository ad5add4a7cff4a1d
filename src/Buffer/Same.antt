-- ===== src/Buffer/Same.antt =====
-- The calls of class File change the disk only, not the buffer pool or the open files.
use database_management_syst.Common.{ℕ, ◌≡◌, refl, ◌∙◌, Bool, true, false, if◌then◌else◌, ℤ, pos}
use database_management_syst.Status.{Res, ok, err, undefined}
use database_management_syst.Monad.{M, ◌>>=◌, and_then}
use database_management_syst.Platform.{Platform, DbPage}
use database_management_syst.System.{Sys}
use database_management_syst.FileIo.{
  int_read_into, int_read, int_write, write_page, take_free, extend_file, allocate_page, free_page,
  dispose_page, unix_status, local_block,
}

module _ {P : Platform} where
  pub record Same (s t : Sys P) : Type 0 where
    pub desc : t.desc ≡ s.desc
    pub frame_table : t.frame_table ≡ s.frame_table
    pub ht_size : t.ht_size ≡ s.ht_size
    pub num_bufs : t.num_bufs ≡ s.num_bufs
    pub clock_hand : t.clock_hand ≡ s.clock_hand
    pub pool : t.pool ≡ s.pool
    pub files : t.files ≡ s.files
    pub open_files : t.open_files ≡ s.open_files

  pub Same-refl : (s : Sys P) → Same s s
  Same-refl s = record {
    desc = refl;
    frame_table = refl;
    ht_size = refl;
    num_bufs = refl;
    clock_hand = refl;
    pool = refl;
    files = refl;
    open_files = refl;
  }

  pub Same-trans : {s t u : Sys P} → Same s t → Same t u → Same s u
  Same-trans a b = record {
    desc = b.desc ∙ a.desc;
    frame_table = b.frame_table ∙ a.frame_table;
    ht_size = b.ht_size ∙ a.ht_size;
    num_bufs = b.num_bufs ∙ a.num_bufs;
    clock_hand = b.clock_hand ∙ a.clock_hand;
    pool = b.pool ∙ a.pool;
    files = b.files ∙ a.files;
    open_files = b.open_files ∙ a.open_files;
  }

  -- A call that changes the disk only, on every branch.
  abbrev pub DiskOnly : {A : Type 0} → M (Sys P) A → Type 0
  DiskOnly m = (s : Sys P) → Same s (m s).1

  and_then-Same :
      {A B : Type 0} (s : Sys P) (f : A → M (Sys P) B) (r : Res A × Sys P)
      → Same s r.1
      → ((a : A) → DiskOnly (f a))
      → Same s (and_then f r).1
  and_then-Same s f (ok a, t) h k = Same-trans h (k a t)
  and_then-Same s f (err e, t) h k = h
  and_then-Same s f (undefined, t) h k = h

  pub DiskOnly->>= :
      {A B : Type 0} (m : M (Sys P) A) (f : A → M (Sys P) B)
      → DiskOnly m
      → ((a : A) → DiskOnly (f a))
      → DiskOnly (m >>= f)
  unfolding ◌>>=◌
  DiskOnly->>= m f h k s = and_then-Same s f (m s) (h s) k

  pub DiskOnly-if :
      {A : Type 0} (b : Bool) (m n : M (Sys P) A)
      → DiskOnly m
      → DiskOnly n
      → DiskOnly (if b then m else n)
  DiskOnly-if true m n h k = h
  DiskOnly-if false m n h k = k

  unix_status-Same : (s : Sys P) (r : Bool × P.Fs) → Same s (unix_status s r).1
  unix_status-Same s (true, fs) = record {
    desc = refl;
    frame_table = refl;
    ht_size = refl;
    num_bufs = refl;
    clock_hand = refl;
    pool = refl;
    files = refl;
    open_files = refl;
  }
  unix_status-Same s (false, fs) = record {
    desc = refl;
    frame_table = refl;
    ht_size = refl;
    num_bufs = refl;
    clock_hand = refl;
    pool = refl;
    files = refl;
    open_files = refl;
  }

  int_write-DiskOnly : (file : ℕ) (p : ℤ) (block : P.Raw) → DiskOnly (int_write file p block)
  unfolding int_write
  int_write-DiskOnly file p block s =
      unix_status-Same s (P.pwrite (s.files file).unix_file p block s.fs)

  local_block-Same : (s : Sys P) (r : Res (Unit {0}) × P.Raw) → Same s (local_block r s).1
  local_block-Same s (ok _, b) = Same-refl s
  local_block-Same s (err e, b) = Same-refl s
  local_block-Same s (undefined, b) = Same-refl s

  int_read-DiskOnly : (file : ℕ) (p : ℤ) → DiskOnly (int_read {P = P} file p)
  unfolding int_read
  int_read-DiskOnly file p s = local_block-Same s (int_read_into file p P.zeroed s)

  pub write_page-DiskOnly : (file : ℕ) (p : ℤ) (block : P.Raw) → DiskOnly (write_page file p block)
  unfolding write_page
  write_page-DiskOnly file p block =
      DiskOnly-if _ _ _ (λ s. Same-refl s) (int_write-DiskOnly file p block)

  take_free-DiskOnly : (file : ℕ) (h : DbPage) → DiskOnly (take_free {P = P} file h)
  unfolding take_free
  take_free-DiskOnly file h =
      DiskOnly->>= _ _ (int_read-DiskOnly file h.next_free) (λ b s. Same-refl s)

  extend_file-DiskOnly : (file : ℕ) (h : DbPage) → DiskOnly (extend_file {P = P} file h)
  unfolding extend_file
  extend_file-DiskOnly file h =
      DiskOnly->>= _ _ (int_write-DiskOnly file h.num_pages P.zeroed) (λ b s. Same-refl s)

  pub allocate_page-DiskOnly : (file : ℕ) → DiskOnly (allocate_page {P = P} file)
  unfolding allocate_page
  allocate_page-DiskOnly file = DiskOnly->>= _ _ (int_read-DiskOnly file (pos 0)) λ b.
      DiskOnly->>= _ _
        (DiskOnly-if _ _ _ (take_free-DiskOnly file (P.dbp b))
          (extend_file-DiskOnly file (P.dbp b)))
        λ r. DiskOnly->>= _ _ (int_write-DiskOnly file (pos 0) _) (λ _ s. Same-refl s)

  free_page-DiskOnly : (file : ℕ) (p : ℤ) (b : P.Raw) → DiskOnly (free_page file p b)
  unfolding free_page
  free_page-DiskOnly file p b =
      DiskOnly->>= _ _ (int_read-DiskOnly file p)
        λ _. DiskOnly->>= _ _ (int_write-DiskOnly file p _) (λ _. int_write-DiskOnly file (pos 0) _)

  pub dispose_page-DiskOnly : (file : ℕ) (p : ℤ) → DiskOnly (dispose_page {P = P} file p)
  unfolding dispose_page
  dispose_page-DiskOnly file p =
      DiskOnly-if _ _ _ (λ s. Same-refl s)
        (DiskOnly->>= _ _ (int_read-DiskOnly file (pos 0))
          λ b. DiskOnly-if _ _ _ (λ s. Same-refl s) (free_page-DiskOnly file p b))
