-- ===== src/Quorum/Verdicts.antt =====
-- When the votes decide.
use junctiongenerator.Base.{
  ℕ, ◌+◌, ◌*◌, ◌≤◌, ◌<◌, ◌≡◌, ◌≢◌, ◌↔◌, refl, sym, ap, ◌∙◌, false, ◌||◌, Option, none, some, List,
  arith, ltb, inl, inr, Bool-cases, if◌then◌else◌, length,
}
use junctiongenerator.Base.Texts.{Text, text_eq, text_eq_iff, text_eq_refl}
use junctiongenerator.Quorum.{
  Ratio, pass, slashing, inconclusive, tally_quorum, matches, is_missing, is_below,
}
use native.Mathlib.Nat.{mul-le-mul_right, mul-lt-mul_of_pos_left}
use junctiongenerator.Quorum.Tally.{
  count, Leads, top_of, top_of-Leads, count-le-top_of, count_disjoint,
}

-- Of all votes, the votes for this commitment are the share of the threshold or more.
abbrev pub Agrees : Ratio → Text → List Text → Type 0
Agrees t c votes = t.numerator * length votes ≤ count c votes * t.denominator

-- The share is more than a half.
abbrev pub IsMajority : Ratio → Type 0
IsMajority t = t.denominator < 2 * t.numerator

-- A decision rests on a commitment that the share of the votes agrees on, and no fewer votes than the
-- minimum: the claim's, where it passes, and another one, where it is slashed.
pub tally_quorum_decides :
    (claim : Text) (votes : List Text) (t : Ratio) (min_quorum : ℕ)
    → ((tally_quorum claim votes t min_quorum).verdict ≡ pass
        → (min_quorum ≤ length votes) × Agrees t claim votes)
      × ((tally_quorum claim votes t min_quorum).verdict ≡ slashing
          → (min_quorum ≤ length votes)
            × (c : Text) × (c ≢ claim)
            × Agrees t c votes
            × ((tally_quorum claim votes t min_quorum).top_commitment ≡ some c))
unfolding tally_quorum
tally_quorum_decides claim votes t min_quorum =
    decided (top_of votes).0 (top_of votes).1 (top_of-Leads votes)
  where
    decided :
        (top : Option Text) (n : ℕ)
        → Leads (λ c k. k ≡ count c votes) top n
        → ((if ltb (length votes) min_quorum || (is_missing top || is_below n (length votes) t)
                then inconclusive
                else if matches claim top
                then pass
                else slashing)
              ≡ pass
            → (min_quorum ≤ length votes) × Agrees t claim votes)
          × ((if ltb (length votes) min_quorum || (is_missing top || is_below n (length votes) t)
                  then inconclusive
                  else if matches claim top
                  then pass
                  else slashing)
                ≡ slashing
              → (min_quorum ≤ length votes)
                × (c : Text) × (c ≢ claim)
                × Agrees t c votes
                × (top ≡ some c))
    decided none n leads = (λ h. ground arith, λ h. ground arith)
    decided (some c) n leads =
        let scaled : n * t.denominator ≡ count c votes * t.denominator =
          ap (λ k. k * t.denominator) leads in
        elim (Bool-cases (text_eq c claim)) [
          | inl same ↦
              let e = (text_eq_iff c claim).0 same in
              let moved : count c votes ≡ count claim votes = ap (λ x. count x votes) e in
              let scaled' : n * t.denominator ≡ count claim votes * t.denominator =
                ap (λ k. k * t.denominator) (leads ∙ moved) in
              (λ h. ground (arith, scaled', same), λ h. ground (arith, same))
          | inr other ↦
              let differ : c ≢ claim = λ e. let same = (text_eq_iff c claim).1 e in cc in
              (
                λ h. ground (arith, other),
                λ h. (ground (arith, other), c, differ, ground (arith, scaled, other), refl),
              )
        ]

-- Two commitments cannot both have the share, where the share is more than a half.
majority_alone : (a n l d k : ℕ) → k * l ≤ a * d → a ≤ n → a + n ≤ l → d < 2 * k → 0 < l → ⊥
majority_alone a n l d k agrees more apart major some_votes =
    let twice : a + a ≤ l = omega arith in
    let scaled = mul-le-mul_right d twice in
    let spread = mul-lt-mul_of_pos_left major some_votes in omega (arith, agrees, scaled, spread)

-- A commitment that the share of the votes agrees on is the top one.
majority-top_of :
    (t : Ratio) (c : Text) (votes : List Text)
    → IsMajority t
    → 0 < length votes
    → Agrees t c votes
    → ((top_of votes).0 ≡ some c) × (t.numerator * length votes ≤ (top_of votes).1 * t.denominator)
majority-top_of t c votes major voted agrees =
    found (top_of votes).0 (top_of votes).1 (top_of-Leads votes) (count-le-top_of c votes)
  where
    found :
        (top : Option Text) (n : ℕ)
        → Leads (λ c k. k ≡ count c votes) top n
        → count c votes ≤ n
        → (top ≡ some c) × (t.numerator * length votes ≤ n * t.denominator)
    found none n leads most = absurd (
        majority_alone (count c votes) 0 (length votes) t.denominator t.numerator agrees
          (omega (arith, leads, most)) (omega (arith, leads, most)) major voted)
    found (some e) n leads most = (
      elim (Bool-cases (text_eq e c)) [
        | inl same ↦ ap some ((text_eq_iff e c).0 same)
        | inr other ↦
            let apart =
              count_disjoint c e votes (λ q. let same = (text_eq_iff e c).1 (sym q) in cc) in
            absurd (
              majority_alone (count c votes) n (length votes) t.denominator t.numerator agrees most
                (omega (arith, apart, leads)) major voted)
      ],
      omega (arith, agrees, mul-le-mul_right t.denominator most),
    )

pub tally_quorum_complete :
    (claim c : Text) (votes : List Text) (t : Ratio) (min_quorum : ℕ)
    → IsMajority t
    → 0 < length votes
    → min_quorum ≤ length votes
    → Agrees t c votes
    → (tally_quorum claim votes t min_quorum).verdict ≡ (if text_eq c claim then pass else slashing)
unfolding tally_quorum
tally_quorum_complete claim c votes t min_quorum major voted enough agrees =
    decided (top_of votes).0 (top_of votes).1 (majority-top_of t c votes major voted agrees).0
      (majority-top_of t c votes major voted agrees).1
  where
    decided :
        (top : Option Text) (n : ℕ)
        → top ≡ some c
        → t.numerator * length votes ≤ n * t.denominator
        → (if ltb (length votes) min_quorum || (is_missing top || is_below n (length votes) t)
            then inconclusive
            else if matches claim top
            then pass
            else slashing)
          ≡ (if text_eq c claim then pass else slashing)
    decided none n e above = absurd (cc)
    decided (some d) n e above =
        let same : text_eq d claim ≡ text_eq c claim = ap (matches claim) e in
        ground (arith, same, enough, above)

-- With a threshold above a half and at least one vote, the verdict is to pass exactly when no fewer than
-- the minimum voted and the share of the votes is for the claim's commitment, and to slash exactly when
-- no fewer than the minimum voted and the share of the votes is for another commitment.
pub tally_quorum_iff :
    (claim : Text) (votes : List Text) (t : Ratio) (min_quorum : ℕ)
    → IsMajority t
    → 0 < length votes
    → (((tally_quorum claim votes t min_quorum).verdict ≡ pass)
        ↔ ((min_quorum ≤ length votes) × Agrees t claim votes))
      × (((tally_quorum claim votes t min_quorum).verdict ≡ slashing)
          ↔ ((min_quorum ≤ length votes) × (c : Text) × (c ≢ claim) × Agrees t c votes))
tally_quorum_iff claim votes t min_quorum major voted =
    let (passes, slashes) = tally_quorum_decides claim votes t min_quorum in
    (
      (
        passes,
        λ (enough, agrees).
            tally_quorum_complete claim claim votes t min_quorum major voted enough agrees
            ∙ ap (λ b. if b then pass else slashing) (text_eq_refl claim),
      ),
      (
        λ h. let (enough, c, other, agrees, leads) = slashes h in (enough, c, other, agrees),
        λ (enough, c, other, agrees).
            tally_quorum_complete claim c votes t min_quorum major voted enough agrees
            ∙ ap (λ b. if b then pass else slashing) (apart c other),
      ),
    )
  where
    apart : (c : Text) → c ≢ claim → text_eq c claim ≡ false
    apart c other = elim (Bool-cases (text_eq c claim)) [
      | inl same ↦ absurd (other ((text_eq_iff c claim).0 same))
      | inr different ↦ different
    ]
