-- ===== src/Sort/Pick.antt =====
-- The choice that next makes among the heads of some lists.
use database_management_syst.Common.{
  ℕ, zero, suc, ◌+◌, ◌≡◌, refl, ap, ◌∙◌, inl, inr, ◌⊎◌, Bool, true, false, Bool-cases, none, some,
  List, [], ◌∷◌, arith,
}
use database_management_syst.Sort.Merge.{Best, against}
use database_management_syst.Sort.Least.{IsOrder, BelowHead, BelowHeads, TakeOut, AllEmpty}

-- The k-th list loses its first element.
abbrev pub behead : {A : Type 0} → ℕ → List (List A) → List (List A)
behead k [] = []
behead zero ([] ∷ ls) = [] ∷ ls
behead zero ((x ∷ xs) ∷ ls) = xs ∷ ls
behead (suc k) (l ∷ ls) = l ∷ behead k ls

-- The k-th list.
abbrev pub nth : {A : Type 0} → ℕ → List (List A) → List A
nth k [] = []
nth zero (l ∷ ls) = l
nth (suc k) (l ∷ ls) = nth k ls

module _ (behind : List ℕ → List ℕ → Bool) where
  abbrev pub against_head : ℕ → Best → List (List ℕ) → Best
  against_head i best [] = best
  against_head i best (x ∷ xs) = against behind i x best

  -- The smallest head, with the number of its list: the first list has the number `i`, and `best`
  -- is the smallest one of the lists before.
  unfoldable pub champion : ℕ → Best → List (List (List ℕ)) → Best
  champion i best [] = best
  champion i best (l ∷ ls) = champion (suc i) (against_head i best l) ls

  -- A head of one of the lists is the champion.
  pub record Found (i : ℕ) (ls : List (List (List ℕ))) (result : Best) : Type 0 where
    pub place : ℕ
    pub head : List ℕ
    pub chosen : result ≡ some (place + i, head)
    pub tail : List (List ℕ)
    pub at_place : nth place ls ≡ head ∷ tail
    pub out : TakeOut head ls (behead place ls)
    pub smallest : BelowHeads behind head ls

  abbrev later :
      (i : ℕ) (l : List (List ℕ)) (ls : List (List (List ℕ))) (result : Best)
      (f : Found (suc i) ls result)
      → BelowHead behind f.head l
      → Found i (l ∷ ls) result
  later i l ls result f below = record {
    place = suc f.place;
    head = f.head;
    chosen = f.chosen ∙ ap (λ n. some (n, f.head)) (omega arith);
    tail = f.tail;
    at_place = f.at_place;
    out = TakeOut.later f.out;
    smallest = (below, f.smallest);
  }

  module _ (o : IsOrder behind) where
    irrefl : (x : List ℕ) → behind x x ≡ false
    irrefl x = elim (Bool-cases (behind x x)) [ inl h ↦ o.asym x x h | inr h ↦ h ]

    abbrev foremost :
        (i : ℕ) (y : List ℕ) (ys : List (List ℕ)) (ls : List (List (List ℕ))) (result : Best)
        → result ≡ some (i, y)
        → BelowHeads behind y ls
        → Found i ((y ∷ ys) ∷ ls) result
    foremost i y ys ls result same below = record {
      place = 0;
      head = y;
      chosen = same ∙ ap (λ n. some (n, y)) (omega arith);
      tail = ys;
      at_place = refl;
      out = TakeOut.first;
      smallest = (irrefl y, below);
    }

    -- The champion so far stays, or one that need not come behind it is found.
    Defended : ℕ → ℕ × List ℕ → List (List (List ℕ)) → Best → Type 0
    Defended i b ls result =
        ((result ≡ some b) × BelowHeads behind b.1 ls)
        ⊎ ((f : Found i ls result) × (behind f.head b.1 ≡ false))

    module _ (i : ℕ) (b : ℕ × List ℕ) (y : List ℕ) (ys : List (List ℕ)) (ls : List (List (List ℕ)))
        (result : Best) where
      beaten :
          behind b.1 y ≡ true
          → Defended (suc i) (i, y) ls result
          → Defended i b ((y ∷ ys) ∷ ls) result
      unfolding Defended
      beaten h (inl (same, below)) = inr (foremost i y ys ls result same below, o.asym b.1 y h)
      beaten h (inr (f, le)) =
          inr (later i (y ∷ ys) ls result f le, o.trans f.head y b.1 le (o.asym b.1 y h))

      kept :
          behind b.1 y ≡ false → Defended (suc i) b ls result → Defended i b ((y ∷ ys) ∷ ls) result
      unfolding Defended
      kept h (inl (same, below)) = inl (same, (h, below))
      kept h (inr (f, le)) = inr (later i (y ∷ ys) ls result f (o.trans f.head b.1 y le h), le)

    kept_nil :
        (i : ℕ) (b : ℕ × List ℕ) (ls : List (List (List ℕ))) (result : Best)
        → Defended (suc i) b ls result
        → Defended i b ([] ∷ ls) result
    unfolding Defended
    kept_nil i b ls result (inl (same, below)) = inl (same, (tt, below))
    kept_nil i b ls result (inr (f, le)) = inr (later i [] ls result f tt, le)

    undefeated : (i : ℕ) (b : ℕ × List ℕ) → Defended i b [] (some b)
    unfolding Defended
    undefeated i b = inl (refl, tt)

    champion-Defended :
        (i : ℕ) (b : ℕ × List ℕ) (ls : List (List (List ℕ)))
        → Defended i b ls (champion i (some b) ls)
    unfolding champion
    champion-Defended i b [] = undefeated i b
    champion-Defended i b ([] ∷ ls) = kept_nil i b ls _ (champion-Defended (suc i) b ls)
    champion-Defended i b ((y ∷ ys) ∷ ls) = elim (Bool-cases (behind b.1 y)) [
      | inl h ↦ rw h (beaten i b y ys ls _ h (champion-Defended (suc i) (i, y) ls))
      | inr h ↦ rw h (kept i b y ys ls _ h (champion-Defended (suc i) b ls))
    ]

    -- Without lists before, there is no champion just if all lists are empty.
    unfoldable pub Chosen : ℕ → List (List (List ℕ)) → Best → Type 0
    Chosen i ls result = ((result ≡ none) × AllEmpty ls) ⊎ Found i ls result

    opened :
        (i : ℕ) (y : List ℕ) (ys : List (List ℕ)) (ls : List (List (List ℕ))) (result : Best)
        → Defended (suc i) (i, y) ls result
        → Found i ((y ∷ ys) ∷ ls) result
    unfolding Defended
    opened i y ys ls result (inl (same, below)) = foremost i y ys ls result same below
    opened i y ys ls result (inr (f, le)) = later i (y ∷ ys) ls result f le

    passed :
        (i : ℕ) (ls : List (List (List ℕ))) (result : Best)
        → Chosen (suc i) ls result
        → Chosen i ([] ∷ ls) result
    unfolding Chosen
    passed i ls result (inl (same, empty)) = inl (same, (refl, empty))
    passed i ls result (inr f) = inr (later i [] ls result f tt)

    pub champion-Chosen : (i : ℕ) (ls : List (List (List ℕ))) → Chosen i ls (champion i none ls)
    unfolding champion Chosen
    champion-Chosen i [] = inl (refl, tt)
    champion-Chosen i ([] ∷ ls) = passed i ls _ (champion-Chosen (suc i) ls)
    champion-Chosen i ((y ∷ ys) ∷ ls) =
        inr (opened i y ys ls _ (champion-Defended (suc i) (i, y) ls))
