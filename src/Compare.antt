-- ===== src/Compare.antt =====
-- The three-way comparison functions (`SORTCMP`, `FNBINARYCMP`) that the sorts and searches of
-- egg3/src/uti/Utility.c are called with, and the contract between the two sides: what a sort may
-- assume of a comparison, and why a comparison that tests `>` and then `<` of a key meets it.
use egg.Base.{Bool, true, false, ◌≡◌, if◌then◌else◌, ltb, arith}
use egg.Base.Int.{ℤ, pos, negsuc, ltb_ℤ}

-- `r < 0` and `r > 0` of an `int`.
abbrev pub is_neg : ℤ → Bool
is_neg (pos n) = false
is_neg (negsuc n) = true

abbrev pub is_pos : ℤ → Bool
is_pos (pos n) = ltb 0 n
is_pos (negsuc n) = false

-- `if (a > b) return 1; else if (a < b) return -1; else return 0;` for a `<` on keys.
abbrev pub three_way : {K : Type 0} → (K → K → Bool) → K → K → ℤ
three_way lt a b = if lt b a then pos 1 else if lt a b then negsuc 0 else pos 0

-- The same, where equal keys go on to a second comparison.
abbrev pub then_by : ℤ → ℤ → ℤ
then_by r next = if is_pos r then r else if is_neg r then r else next

-- A `<` as numbers have it: it never holds both ways, and its failure is transitive. (It is so of
-- the C types `int32_t`, `int64_t` and `did_t`, and of `double` without NaN.)
pub record StrictWeak {K : Type 0} (lt : K → K → Bool) : Type 0 where
  pub asym : (a b : K) → lt a b ≡ true → lt b a ≡ false
  pub neg_trans : (a b c : K) → lt a b ≡ false → lt b c ≡ false → lt a c ≡ false

-- What a sort needs: `a` may stand before `b` where `cmp a b` is not negative, one of the two
-- orders is always allowed, and the relation is transitive.
abbrev pub Before : {A : Type 0} → (A → A → ℤ) → A → A → Type 0
Before cmp a b = is_neg (cmp a b) ≡ false

pub record IsOrder {A : Type 0} (cmp : A → A → ℤ) : Type 0 where
  pub flip : (a b : A) → is_neg (cmp a b) ≡ true → Before cmp b a
  pub trans : (a b c : A) → Before cmp a b → Before cmp b c → Before cmp a c

pub ltb-StrictWeak : StrictWeak ltb
ltb-StrictWeak = record { asym = λ a b h. ground arith; neg_trans = λ a b c h k. ground arith }

pub ltb_ℤ-StrictWeak : StrictWeak ltb_ℤ
ltb_ℤ-StrictWeak = record { asym = λ a b h. ground arith; neg_trans = λ a b c h k. ground arith }

pub StrictWeak-flip : {K : Type 0} {lt : K → K → Bool} → StrictWeak lt → StrictWeak (λ a b. lt b a)
StrictWeak-flip w = record {
  asym = λ a b h. w.asym b a h;
  neg_trans = λ a b c h k. w.neg_trans c b a k h;
}

-- A comparison of keys, ascending or descending, is an order.
module _ {A K : Type 0} (key : A → K) {lt : K → K → Bool} (w : StrictWeak lt) where
  pub three_way-IsOrder : IsOrder (λ a b. three_way lt (key a) (key b))
  three_way-IsOrder = record {
    flip = λ a b h. ground (arith, w.asym (key a) (key b), w.asym (key b) (key a));
    trans = λ a b c h k. ground (
      arith,
      w.asym (key a) (key b),
      w.asym (key b) (key c),
      w.asym (key a) (key c),
      w.neg_trans (key a) (key b) (key c),
    );
  }

  pub three_way_flipped-IsOrder : IsOrder (λ a b. three_way lt (key b) (key a))
  three_way_flipped-IsOrder = record {
    flip = λ a b h. ground (arith, w.asym (key a) (key b), w.asym (key b) (key a));
    trans = λ a b c h k. ground (
      arith,
      w.asym (key b) (key a),
      w.asym (key c) (key b),
      w.asym (key c) (key a),
      w.neg_trans (key c) (key b) (key a),
    );
  }

-- So is one that breaks ties by a second key.
module _ {A K L : Type 0} (key : A → K) (tie : A → L) {lt : K → K → Bool} {lt' : L → L → Bool}
    (w : StrictWeak lt) (w' : StrictWeak lt') where
  pub then_by-IsOrder :
      IsOrder (λ a b. then_by (three_way lt (key a) (key b)) (three_way lt' (tie b) (tie a)))
  then_by-IsOrder = record {
    flip = λ a b h.
        ground (arith, w.asym (key a) (key b), w'.asym (tie a) (tie b), w'.asym (tie b) (tie a));
    trans = λ a b c h k. ground (
      arith,
      w.asym (key a) (key b),
      w.asym (key b) (key c),
      w.asym (key a) (key c),
      w.neg_trans (key a) (key b) (key c),
      w.neg_trans (key b) (key c) (key a),
      w.neg_trans (key c) (key a) (key b),
      w'.asym (tie b) (tie a),
      w'.asym (tie c) (tie b),
      w'.asym (tie c) (tie a),
      w'.neg_trans (tie c) (tie b) (tie a),
    );
  }
