-- ===== src/Query/Turned.antt =====
-- The filter that QU_NL_Join gives to the scan of the inner relation.
use database_management_syst.Common.{
  ℕ, zero, suc, ◌+◌, ◌-◌, ◌<◌, ◌≤◌, ◌==◌, ◌≡◌, refl, sym, ap, ◌∙◌, false, not, some, List, length,
  drop, get_or, ltb, leb, if◌then◌else◌, ℤ, eq_ℤ, to_int32, arith,
}
use database_management_syst.HeapFile.{
  Datatype, string, integer, Operator, lt, lte, eq, gte, gt, ne, Filter,
}
use database_management_syst.HeapFile.Match.{
  Sign, negative, null, positive, unordered, holds, slice, word, strncmp, diff_sign, match_rec,
}
use database_management_syst.HeapFile.Compare.{compare_ℤ, InRange, match_rec-compare_ℤ}
use database_management_syst.Catalog.{AttrDesc}
use database_management_syst.Query.{turned}

-- startScan's filter for an outer record, with the operator of the join.
abbrev pub inner_filter : AttrDesc → AttrDesc → Datatype → Operator → List ℕ → Filter
inner_filter d1 d2 type op outer_rec = record {
  offset = d2.attr_offset;
  length = d2.attr_len;
  type = type;
  value = drop d1.attr_offset outer_rec;
  op = turned op;
}

-- The sign of the opposite difference.
abbrev opposite : Sign → Sign
opposite negative = positive
opposite null = null
opposite positive = negative
opposite unordered = unordered

holds-turned : (op : Operator) (s : Sign) → holds (turned op) s ≡ holds op (opposite s)
holds-turned lt negative = refl
holds-turned lt null = refl
holds-turned lt positive = refl
holds-turned lt unordered = refl
holds-turned lte negative = refl
holds-turned lte null = refl
holds-turned lte positive = refl
holds-turned lte unordered = refl
holds-turned eq negative = refl
holds-turned eq null = refl
holds-turned eq positive = refl
holds-turned eq unordered = refl
holds-turned gte negative = refl
holds-turned gte null = refl
holds-turned gte positive = refl
holds-turned gte unordered = refl
holds-turned gt negative = refl
holds-turned gt null = refl
holds-turned gt positive = refl
holds-turned gt unordered = refl
holds-turned ne negative = refl
holds-turned ne null = refl
holds-turned ne positive = refl
holds-turned ne unordered = refl

abbrev first_sign : ℕ → ℕ → Sign → Sign
first_sign x y rest =
    if ltb x y then negative else if ltb y x then positive else if x == 0 then null else rest

first_sign-opposite :
    (x y : ℕ) (rest : Sign) → first_sign y x (opposite rest) ≡ opposite (first_sign x y rest)
first_sign-opposite x y rest = ground arith

strncmp-first_sign :
    (n : ℕ) (a b : List ℕ)
    → strncmp (suc n) a b
      ≡ first_sign
          (get_or a 0 0)
          (get_or b 0 0)
          (strncmp n (slice a 1 (length a - 1)) (slice b 1 (length b - 1)))
unfolding strncmp
strncmp-first_sign n a b = refl

strncmp-opposite : (n : ℕ) (a b : List ℕ) → strncmp n b a ≡ opposite (strncmp n a b)
unfolding strncmp
strncmp-opposite zero a b = refl
strncmp-opposite (suc n) a b =
    rw (strncmp-opposite n (slice a 1 (length a - 1)) (slice b 1 (length b - 1)))
      (first_sign-opposite (get_or a 0 0) (get_or b 0 0) _)

eq_ℤ_comm : (a b : ℤ) → eq_ℤ a b ≡ eq_ℤ b a
eq_ℤ_comm a b = ground arith

compare_ℤ-turned : (op : Operator) (a b : ℤ) → compare_ℤ (turned op) a b ≡ compare_ℤ op b a
compare_ℤ-turned lt a b = refl
compare_ℤ-turned lte a b = refl
compare_ℤ-turned eq a b = eq_ℤ_comm a b
compare_ℤ-turned gte a b = refl
compare_ℤ-turned gt a b = refl
compare_ℤ-turned ne a b = ap not (eq_ℤ_comm a b)

module _ (float_sign : List ℕ → List ℕ → Sign) (d1 d2 : AttrDesc) (op : Operator)
    (o i : List ℕ) where
  diff_sign-string :
      diff_sign float_sign (inner_filter d1 d2 string op o) i
      ≡ strncmp d2.attr_len
          (slice i d2.attr_offset (length i - d2.attr_offset))
          (drop d1.attr_offset o)
  unfolding diff_sign
  diff_sign-string = refl

  -- The inner scan of QU_NL_Join on a string attribute that lies in the inner record lets the
  -- record through just if the outer record's string stands in the join's relation to the inner
  -- record's one, by strncmp on the attribute's length.
  match_rec-strncmp :
      0 < d2.attr_len
      → d2.attr_offset + d2.attr_len ≤ length i
      → match_rec float_sign (some (inner_filter d1 d2 string op o)) i
        ≡ holds op (
            strncmp d2.attr_len
              (drop d1.attr_offset o)
              (slice i d2.attr_offset (length i - d2.attr_offset)))
  unfolding match_rec
  match_rec-strncmp some_byte inside =
      let fits : leb (length i) (d2.attr_offset + d2.attr_len - 1) ≡ false = ground arith in
      rw (fits, diff_sign-string)
        (holds-turned op _
          ∙ ap (holds op) (
              sym (
                strncmp-opposite d2.attr_len (slice i d2.attr_offset (length i - d2.attr_offset))
                  (drop d1.attr_offset o))))

  -- The inner scan of QU_NL_Join on an integer attribute that lies in the inner record lets the
  -- record through just if the outer record's integer stands in the join's relation to the inner
  -- record's one, if their difference does not overflow.
  pub match_rec-turned :
      0 < d2.attr_len
      → d2.attr_offset + d2.attr_len ≤ length i
      → InRange (word (slice i d2.attr_offset d2.attr_len)) (word (drop d1.attr_offset o))
      → match_rec float_sign (some (inner_filter d1 d2 integer op o)) i
        ≡ compare_ℤ op
            (to_int32 (word (drop d1.attr_offset o)))
            (to_int32 (word (slice i d2.attr_offset d2.attr_len)))
  match_rec-turned some_byte inside range =
      match_rec-compare_ℤ float_sign (inner_filter d1 d2 integer op o) i refl some_byte inside range
      ∙ compare_ℤ-turned op _ _
