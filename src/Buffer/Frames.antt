-- ===== src/Buffer/Frames.antt =====
-- A frame that somebody has pinned keeps its page while other pages come into the pool.
use database_management_syst.Common.{ℕ, ◌≤◌, ◌≡◌, page_key}
use database_management_syst.Platform.{Platform}
use database_management_syst.System.{Sys}
use database_management_syst.Buffer.Same.{Same}

module _ {P : Platform} where
  -- Frame i has the block and the page that it had, and as many pins or more.
  pub record Guarded (i : ℕ) (s t : Sys P) : Type 0 where
    pub block : t.pool i ≡ s.pool i
    pub valid : (t.desc i).valid ≡ (s.desc i).valid
    pub file : (t.desc i).file ≡ (s.desc i).file
    pub page_no : (t.desc i).page_no ≡ (s.desc i).page_no
    pub pins : (s.desc i).pin_cnt ≤ (t.desc i).pin_cnt
