-- ===== src/Sort/Least.antt =====
-- Lists that are taken apart from their smallest heads.
use mathlib.Core.List.{Perm, perm_middle, flatten}
use mathlib.Core.List.Perm
use database_management_syst.Common.{◌≡◌, refl, Bool, true, false, List, [], ◌∷◌}

-- `behind a b` says that `a` must come behind `b`: a strict weak order.
pub record IsOrder {A : Type 0} (behind : A → A → Bool) : Type 0 where
  pub asym : (a b : A) → behind a b ≡ true → behind b a ≡ false
  pub trans : (a b c : A) → behind a b ≡ false → behind b c ≡ false → behind a c ≡ false

module _ {A : Type 0} (behind : A → A → Bool) where
  -- `x` need not come behind any of a list, nor behind any of several.
  abbrev pub Below : A → List A → Type 0
  Below x [] = Unit {0}
  Below x (y ∷ ys) = (behind x y ≡ false) × Below x ys

  abbrev pub BelowAll : A → List (List A) → Type 0
  BelowAll x [] = Unit {0}
  BelowAll x (l ∷ ls) = Below x l × BelowAll x ls

  abbrev pub IsSorted : List A → Type 0
  IsSorted [] = Unit {0}
  IsSorted (x ∷ xs) = Below x xs × IsSorted xs

  abbrev pub AllSorted : List (List A) → Type 0
  AllSorted [] = Unit {0}
  AllSorted (l ∷ ls) = IsSorted l × AllSorted ls

  -- `x` need not come behind the first one of any list.
  abbrev pub BelowHead : A → List A → Type 0
  BelowHead x [] = Unit {0}
  BelowHead x (y ∷ ys) = behind x y ≡ false

  abbrev pub BelowHeads : A → List (List A) → Type 0
  BelowHeads x [] = Unit {0}
  BelowHeads x (l ∷ ls) = BelowHead x l × BelowHeads x ls

abbrev pub AllEmpty : {A : Type 0} → List (List A) → Type 0
AllEmpty [] = Unit {0}
AllEmpty (l ∷ ls) = (l ≡ []) × AllEmpty ls

-- The first element of one of the lists is taken out.
pub data TakeOut {A : Type 0} (x : A) : List (List A) → List (List A) → Type 0 where
  first : {xs : List A} {ls : List (List A)} → TakeOut x ((x ∷ xs) ∷ ls) (xs ∷ ls)
  later : {l : List A} {ls rest : List (List A)} → TakeOut x ls rest → TakeOut x (l ∷ ls) (l ∷ rest)

-- A smallest head is taken out, until nothing is left.
pub data Drained {A : Type 0} (behind : A → A → Bool) : List (List A) → List A → Type 0 where
  finished : {ls : List (List A)} → AllEmpty ls → Drained behind ls []
  taken :
      {ls rest : List (List A)} {x : A} {out : List A}
      → TakeOut x ls rest
      → BelowHeads behind x ls
      → Drained behind rest out
      → Drained behind ls (x ∷ out)

pub flatten-TakeOut :
    {A : Type 0} {x : A} {ls rest : List (List A)}
    → TakeOut x ls rest
    → Perm (flatten ls) (x ∷ flatten rest)
unfolding flatten
flatten-TakeOut TakeOut.first = Perm.refl _
flatten-TakeOut (TakeOut.later {l} t) =
    Perm.trans (Perm.append (Perm.refl l) (flatten-TakeOut t)) (perm_middle l _)

flatten-AllEmpty : {A : Type 0} (ls : List (List A)) → AllEmpty ls → flatten ls ≡ []
unfolding flatten
flatten-AllEmpty [] e = refl
flatten-AllEmpty (l ∷ ls) e = rw (e.0) (flatten-AllEmpty ls e.1)

module _ {A : Type 0} (behind : A → A → Bool) where
  pub Drained-Perm :
      {ls : List (List A)} {out : List A} → Drained behind ls out → Perm (flatten ls) out
  Drained-Perm (Drained.finished {ls} e) = rw (flatten-AllEmpty ls e) (Perm.refl [])
  Drained-Perm (Drained.taken t b d) = Perm.trans (flatten-TakeOut t) (Perm.cons _ (Drained-Perm d))

  AllSorted-TakeOut :
      {x : A} {ls rest : List (List A)}
      → TakeOut x ls rest
      → AllSorted behind ls
      → AllSorted behind rest
  AllSorted-TakeOut TakeOut.first s = (s.0.1, s.1)
  AllSorted-TakeOut (TakeOut.later t) s = (s.0, AllSorted-TakeOut t s.1)

  BelowAll-TakeOut :
      (y : A) {x : A} {ls rest : List (List A)}
      → TakeOut x ls rest
      → BelowAll behind y ls
      → (behind y x ≡ false) × BelowAll behind y rest
  BelowAll-TakeOut y TakeOut.first b = (b.0.0, (b.0.1, b.1))
  BelowAll-TakeOut y (TakeOut.later t) b =
      let (le, rest) = BelowAll-TakeOut y t b.1 in (le, (b.0, rest))

  Below-Drained :
      (y : A) {ls : List (List A)} {out : List A}
      → Drained behind ls out
      → BelowAll behind y ls
      → Below behind y out
  Below-Drained y (Drained.finished e) b = tt
  Below-Drained y (Drained.taken t h d) b =
      let (le, rest) = BelowAll-TakeOut y t b in (le, Below-Drained y d rest)

  module _ (o : IsOrder behind) where
    Below-trans :
        (x y : A) (ys : List A) → behind x y ≡ false → Below behind y ys → Below behind x ys
    Below-trans x y [] le b = tt
    Below-trans x y (z ∷ zs) le b = (o.trans x y z le b.0, Below-trans x y zs le b.1)

    Below-BelowHead :
        (x : A) (l : List A) → BelowHead behind x l → IsSorted behind l → Below behind x l
    Below-BelowHead x [] h s = tt
    Below-BelowHead x (y ∷ ys) h s = (h, Below-trans x y ys h s.0)

    BelowAll-BelowHeads :
        (x : A) (ls : List (List A))
        → BelowHeads behind x ls
        → AllSorted behind ls
        → BelowAll behind x ls
    BelowAll-BelowHeads x [] h s = tt
    BelowAll-BelowHeads x (l ∷ ls) h s =
        (Below-BelowHead x l h.0 s.0, BelowAll-BelowHeads x ls h.1 s.1)

    pub Drained-IsSorted :
        {ls : List (List A)} {out : List A}
        → Drained behind ls out
        → AllSorted behind ls
        → IsSorted behind out
    Drained-IsSorted (Drained.finished e) s = tt
    Drained-IsSorted (Drained.taken {ls} {x} t h d) s = (
      Below-Drained x d (BelowAll-TakeOut x t (BelowAll-BelowHeads x ls h s)).1,
      Drained-IsSorted d (AllSorted-TakeOut t s),
    )
