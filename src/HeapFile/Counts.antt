-- ===== src/HeapFile/Counts.antt =====
-- heapfile.cpp, HeapFileScan::deleteRecord: the record count in the header page.
use database_management_syst.Common.{
  ℕ, ◌≡◌, ◌≢◌, refl, sym, ap, ◌∙◌, true, some, arith, ==_iff, minus_one, ◌+ℤ◌,
}
use database_management_syst.Status.{Res, ok, err, undefined}
use database_management_syst.Monad.{◌>>=◌}
use database_management_syst.Platform.{Platform, FileHdrPage}
use database_management_syst.Page
use database_management_syst.Page.{Page}
use database_management_syst.System.{update}
use database_management_syst.HeapFile.{Session, header, edit_header, edit_cur_page, get_rec_cnt}
use database_management_syst.HeapFile.Scan.{delete_cur_record}

abbrev pub status_of : {A : Type 0} → Res A → Res (Unit {0})
status_of (ok a) = ok tt
status_of (err e) = err e
status_of undefined = undefined

update-same : {A : Type 0} (f : ℕ → A) (i : ℕ) (a : A) → update f i a i ≡ a
update-same f i a = ground (arith, ==_iff i i)

update-other : {A : Type 0} (f : ℕ → A) (i j : ℕ) (a : A) → j ≢ i → update f i a j ≡ f j
update-other f i j a ne = ground (arith, ==_iff j i)

-- The count after the change of the header page.
lowered :
    (P : Platform) (pool : ℕ → P.Raw) (j : ℕ)
    → (P.hdr (
        update pool j
          (P.set_hdr
            (record (P.hdr (pool j)) { rec_cnt = (P.hdr (pool j)).rec_cnt +ℤ minus_one })
            (pool j))
          j)).rec_cnt
      ≡ (P.hdr (pool j)).rec_cnt +ℤ minus_one
lowered P pool j =
    ap (λ r. (P.hdr r).rec_cnt) (update-same pool j _)
    ∙ ap (λ (h : FileHdrPage). h.rec_cnt) (P.hdr-set_hdr _ _)

module _ {P : Platform} where
  -- The status is that of the page, and the count is one less, and the header page is dirty.
  abbrev pub Counts : Session P → Res Page → Res (Unit {0}) × Session P → Type 0
  Counts s q r =
      (r.0 ≡ status_of q)
      × (get_rec_cnt r.1 ≡ get_rec_cnt s +ℤ minus_one)
      × (r.1.hf.hdr_dirty ≡ true)

  cases :
      (s : Session P) (i : ℕ) (q : Res Page)
      → s.hf.cur_page ≡ some i
      → i ≢ s.hf.header_page
      → q ≢ undefined
      → Page.delete_record s.hf.cur_rec (P.page (s.sys.pool i)) ≡ q
      → Counts s q (delete_cur_record s)
  unfolding delete_cur_record edit_header edit_cur_page get_rec_cnt header ◌>>=◌
  cases s i (ok x) cur apart d e =
      let j = s.hf.header_page in
      rw (cur, e)
        (
          refl,
          lowered P (update s.sys.pool i (P.set_page x (s.sys.pool i))) j
              ∙ ap (λ r. (P.hdr r).rec_cnt +ℤ minus_one)
                  (update-other s.sys.pool i j (P.set_page x (s.sys.pool i))
                    (λ same. apart (sym same))),
          refl,
        )
  cases s i (err x) cur apart d e = rw (cur, e) (refl, lowered P s.sys.pool s.hf.header_page, refl)
  cases s i undefined cur apart d e = absurd (d refl)

  -- deleteRecord of a scan, with a current page that is not the header page: the status is that of
  -- the deletion from the page, and the record count is one less than before and the header page
  -- marked as changed, also if that deletion has failed. The deletion must not be undefined.
  pub delete_cur_record-Counts :
      (s : Session P) (i : ℕ)
      → s.hf.cur_page ≡ some i
      → i ≢ s.hf.header_page
      → Page.delete_record s.hf.cur_rec (P.page (s.sys.pool i)) ≢ undefined
      → Counts s (Page.delete_record s.hf.cur_rec (P.page (s.sys.pool i))) (delete_cur_record s)
  delete_cur_record-Counts s i cur apart d = cases s i _ cur apart d refl
