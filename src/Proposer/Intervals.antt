-- ===== src/Proposer/Intervals.antt =====
-- The intervals of the bonds among the draws.
use junctiongenerator.Base.{
  ℕ, ◌+◌, ◌-◌, ◌≤◌, ◌<◌, ◌≡◌, refl, ap, true, false, inl, inr, List, [], ◌∷◌, ◌++◌, arith, ltb,
  Bool-cases, ok, ltb→lt,
}
use junctiongenerator.Proposer.{ValidatorBond, stake, total_stake, draw_loop}

-- The bond in whose interval the draw lies: the intervals stand one after the other, each as long as
-- its bond's stake.
pub record Owner (validators : List ValidatorBond) (draw : ℕ) : Type 0 where
  pub before : List ValidatorBond
  pub bond : ValidatorBond
  pub after : List ValidatorBond
  pub split : validators ≡ before ++ bond ∷ after
  pub above : total_stake before ≤ draw
  pub below : draw < total_stake before + stake bond

pub draw_loop_interval :
    (draw c : ℕ) (before : List ValidatorBond) (bond : ValidatorBond) (after : List ValidatorBond)
    → c + total_stake before ≤ draw
    → draw < c + total_stake before + stake bond
    → draw_loop draw c (before ++ bond ∷ after) ≡ ok bond.validator_id
unfolding draw_loop
draw_loop_interval draw c [] bond after low high =
    let here : ltb draw (c + stake bond) ≡ true = ground arith in rw here
draw_loop_interval draw c (b ∷ before) bond after low high =
    let later : ltb draw (c + stake b) ≡ false = ground arith in
    rw later (draw_loop_interval draw (c + stake b) before bond after (omega arith) (omega arith))

-- The intervals cover every draw below the total stake.
pub Owner_of_draw :
    (draw : ℕ) (validators : List ValidatorBond)
    → draw < total_stake validators
    → Owner validators draw
Owner_of_draw draw [] h = absurd (omega arith)
Owner_of_draw draw (b ∷ validators) h = elim (Bool-cases (ltb draw (stake b))) [
  | inl here ↦ record {
    before = [];
    bond = b;
    after = validators;
    split = refl;
    above = omega arith;
    below = omega (arith, ltb→lt draw (stake b) here);
  }
  | inr later ↦
      let past : stake b ≤ draw = ground arith in
      let o = Owner_of_draw (draw - stake b) validators (omega arith) in
      record {
        before = b ∷ o.before;
        bond = o.bond;
        after = o.after;
        split = ap (λ t. b ∷ t) o.split;
        above = omega (arith, o.above);
        below = omega (arith, o.below);
      }
]
