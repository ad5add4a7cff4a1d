-- ===== src/Buffer/Map/View.antt =====
-- The buffer pool as its clients see it: a map from pages to blocks.
use database_management_syst.Common.{ℕ, ◌<◌, ◌≡◌, Bool, true, false, Option, none, some, ℤ}
use database_management_syst.Platform.{Platform}
use database_management_syst.System.{Sys}
use database_management_syst.Buffer.Sound.{frame_of}
use database_management_syst.Buffer.Calls.{IsPool}
use database_management_syst.Buffer.Map.Disk.{OnDisk, IsOpened, Apart}
use database_management_syst.Buffer.Map.Evict.{key_of}

-- What the clients know: the block of each page that they have read or changed, or that they know
-- from the disk, and whether a page was changed since it was last unpinned as dirty.
pub record Pages (P : Platform) : Type 0 where
  pub content : ℕ × ℤ → Option P.Raw
  pub changed : ℕ × ℤ → Bool

module _ {P : Platform} where
  -- The block of a page stands in the frame that the hash table leads to, and on the disk as well
  -- if no change is due. Without a frame it stands on the disk.
  abbrev pub Shows : Sys P → Pages P → ℕ × ℤ → P.Raw → Type 0
  Shows s a k r =
      ((i : ℕ)
        → frame_of s k ≡ some i
        → (s.pool i ≡ r) × ((s.desc i).dirty ≡ false → a.changed k ≡ false → OnDisk s k r))
      × (frame_of s k ≡ none → OnDisk s k r)

  -- The pool shows the pages of the map. The frames in `Free` are not in use: what their
  -- descriptors say does not count.
  pub record ShowsBut (Free : ℕ → Type 0) (s : Sys P) (a : Pages P) : Type 0 where
    pub pool : IsPool s
    pub apart : Apart s
    pub listed :
        (i : ℕ)
        → (Free i → ⊥)
        → i < s.num_bufs
        → (s.desc i).valid ≡ true
        → (frame_of s (key_of s i) ≡ some i) × IsOpened s (s.desc i).file
    pub unused :
        (i : ℕ)
        → (Free i → ⊥)
        → i < s.num_bufs
        → (s.desc i).valid ≡ false
        → (s.desc i).dirty ≡ false
    pub pinned :
        (k : ℕ × ℤ) (i : ℕ) → frame_of s k ≡ some i → a.changed k ≡ true → 0 < (s.desc i).pin_cnt
    pub pages : (k : ℕ × ℤ) (r : P.Raw) → a.content k ≡ some r → IsOpened s k.0 × Shows s a k r

  abbrev pub ShowsPages : Sys P → Pages P → Type 0
  ShowsPages s a = ShowsBut (λ i. ⊥) s a
