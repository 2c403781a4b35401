-- ===== src/Quorum/Tally.antt =====
-- What `tallyQuorum` counts.
use junctiongenerator.Base.{
  ℕ, ◌+◌, ◌≤◌, ◌≡◌, ◌≢◌, refl, sym, ap, ◌∙◌, Bool, true, false, Option, none, some, List, [], ◌∷◌,
  arith, ltb, inl, inr, Bool-cases, if◌then◌else◌, length,
}
use junctiongenerator.Base.Texts.{Text, text_eq, text_eq_iff, text_eq_refl}
use junctiongenerator.Base.Maps.{
  TextMap, lookup, insert, lookup-insert, HasDistinctKeys, insert-HasDistinctKeys,
}
use junctiongenerator.Base.Search.{EveryEntry}
use junctiongenerator.Quorum.{or_zero, count_votes, top_vote}

-- How often a commitment is voted for.
abbrev pub count : Text → List Text → ℕ
count c [] = 0
count c (v ∷ votes) = (if text_eq v c then 1 else 0) + count c votes

count_votes-HasDistinctKeys :
    (votes : List Text) (m : TextMap ℕ) → HasDistinctKeys m → HasDistinctKeys (count_votes votes m)
unfolding count_votes
count_votes-HasDistinctKeys [] m h = h
count_votes-HasDistinctKeys (v ∷ votes) m h =
    count_votes-HasDistinctKeys votes (insert v (or_zero (lookup v m) + 1) m)
      (insert-HasDistinctKeys v (or_zero (lookup v m) + 1) m h)

lookup-count_votes :
    (c : Text) (votes : List Text) (m : TextMap ℕ)
    → or_zero (lookup c (count_votes votes m)) ≡ or_zero (lookup c m) + count c votes
unfolding count_votes
lookup-count_votes c [] m = omega arith
lookup-count_votes c (v ∷ votes) m =
    let step = lookup-insert v c (or_zero (lookup v m) + 1) m in
    let rest = lookup-count_votes c votes (insert v (or_zero (lookup v m) + 1) m) in
    elim (Bool-cases (text_eq v c)) [
      | inl same ↦
          let e = (text_eq_iff v c).0 same in
          let here : or_zero (lookup v m) ≡ or_zero (lookup c m) =
            ap (λ t. or_zero (lookup t m)) e in
          ground (arith, step, rest, here, same)
      | inr other ↦ ground (arith, step, rest, other)
    ]

EveryEntry-map :
    {V : Type 0} (P Q : Text → V → Type 0) (m : TextMap V)
    → ((k : Text) (v : V) → P k v → Q k v)
    → EveryEntry P m
    → EveryEntry Q m
EveryEntry-map P Q [] f a = tt
EveryEntry-map P Q ((k, v) ∷ m) f (own, rest) = (f k v own, EveryEntry-map P Q m f rest)

-- An entry is what a lookup of its key finds.
entries_found : (m : TextMap ℕ) → HasDistinctKeys m → EveryEntry (λ k v. lookup k m ≡ some v) m
unfolding lookup
entries_found [] h = tt
entries_found ((k, v) ∷ m) (new, rest) = (
  ap (λ t. if t then some v else lookup k m) (text_eq_refl k),
  EveryEntry-map (λ j w. lookup j m ≡ some w) (λ j w. lookup j ((k, v) ∷ m) ≡ some w) m
      (λ j w found. elim (Bool-cases (text_eq k j)) [
        | inl same ↦
            let e = (text_eq_iff k j).0 same in
            let absent : lookup j m ≡ none = ap (λ t. lookup t m) (sym e) ∙ new in absurd (cc)
        | inr other ↦ ap (λ t. if t then some v else lookup j m) other ∙ found
      ])
      (entries_found m rest),
)

-- What is carried through the loop: no entry yet, or an entry of the map with its count.
abbrev pub Leads : (Text → ℕ → Type 0) → Option Text → ℕ → Type 0
Leads P none n = n ≡ 0
Leads P (some c) n = P c n

top_vote-le : (m : TextMap ℕ) (top : Option Text) (n : ℕ) → n ≤ (top_vote m top n).1
unfolding top_vote
top_vote-le [] top n = omega arith
top_vote-le ((c, k) ∷ m) top n =
    let rest = top_vote-le m (if ltb n k then some c else top) (if ltb n k then k else n) in
    ground (arith, rest)

-- No entry has more votes than the top.
top_vote-most :
    (m : TextMap ℕ) (top : Option Text) (n : ℕ) → EveryEntry (λ c k. k ≤ (top_vote m top n).1) m
unfolding top_vote
top_vote-most [] top n = tt
top_vote-most ((c, k) ∷ m) top n =
    let least = top_vote-le m (if ltb n k then some c else top) (if ltb n k then k else n) in
    (
      ground (arith, least),
      top_vote-most m (if ltb n k then some c else top) (if ltb n k then k else n),
    )

top_vote-Leads :
    (P : Text → ℕ → Type 0) (m : TextMap ℕ) (top : Option Text) (n : ℕ)
    → EveryEntry P m
    → Leads P top n
    → Leads P (top_vote m top n).0 (top_vote m top n).1
unfolding top_vote
top_vote-Leads P [] top n a h = h
top_vote-Leads P ((c, k) ∷ m) top n (own, rest) h =
    top_vote-Leads P m (if ltb n k then some c else top) (if ltb n k then k else n) rest
      (next (ltb n k))
  where
    next : (more : Bool) → Leads P (if more then some c else top) (if more then k else n)
    next true = own
    next false = h

abbrev pub counts_of : List Text → TextMap ℕ
counts_of votes = count_votes votes []

counts_of_entries : (votes : List Text) → EveryEntry (λ c n. n ≡ count c votes) (counts_of votes)
unfolding lookup
counts_of_entries votes =
    EveryEntry-map (λ c n. lookup c (counts_of votes) ≡ some n) (λ c n. n ≡ count c votes)
      (counts_of votes)
      (λ c n found.
        let value : n ≡ or_zero (lookup c (counts_of votes)) = ap or_zero (sym found) in
        omega (arith, value, lookup-count_votes c votes []))
      (entries_found (counts_of votes) (count_votes-HasDistinctKeys votes [] tt))

entry_le :
    (c : Text) (bound : ℕ) (m : TextMap ℕ)
    → EveryEntry (λ k n. n ≤ bound) m
    → or_zero (lookup c m) ≤ bound
unfolding lookup
entry_le c bound [] a = omega arith
entry_le c bound ((k, n) ∷ m) (own, rest) =
    let below = entry_le c bound m rest in ground (arith, below)

abbrev pub top_of : List Text → Option Text × ℕ
top_of votes = top_vote (counts_of votes) none 0

-- The top commitment has its count of the votes, and no commitment has more.
pub top_of-Leads :
    (votes : List Text) → Leads (λ c n. n ≡ count c votes) (top_of votes).0 (top_of votes).1
top_of-Leads votes =
    top_vote-Leads (λ c n. n ≡ count c votes) (counts_of votes) none 0 (counts_of_entries votes)
      refl

pub count-le-top_of : (c : Text) (votes : List Text) → count c votes ≤ (top_of votes).1
unfolding lookup
count-le-top_of c votes =
    let below =
      entry_le c (top_of votes).1 (counts_of votes) (top_vote-most (counts_of votes) none 0) in
    let counted = lookup-count_votes c votes [] in omega (arith, below, counted)

-- Two different commitments have no votes in common.
pub count_disjoint :
    (c d : Text) (votes : List Text) → c ≢ d → count c votes + count d votes ≤ length votes
count_disjoint c d [] differ = omega arith
count_disjoint c d (v ∷ votes) differ =
    ground (arith, text_eq_iff v c, text_eq_iff v d, count_disjoint c d votes differ)
