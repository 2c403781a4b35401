-- ===== src/Base/Search.antt =====
-- Whether a list or the entries of a map have a member that passes a test.
use junctiongenerator.Base.{
  ◌≡◌, refl, sym, ap, subst, ◌∙◌, Bool, true, false, ◌||◌, Option, some, List, [], ◌∷◌, ◌++◌, arith,
  if◌then◌else◌, Bool-cases, inl, inr,
}
use junctiongenerator.Base.Texts.{Text, text_eq, text_eq_iff}
use junctiongenerator.Base.Maps.{TextMap, lookup, insert}
use junctiongenerator.Base.Sorting.{insert_by, sort_by}

module _ {A : Type 0} (p : A → Bool) where
  abbrev pub any : List A → Bool
  any [] = false
  any (x ∷ xs) = p x || any xs

  pub any-append : (xs ys : List A) → any (xs ++ ys) ≡ (any xs || any ys)
  any-append [] ys = refl
  any-append (x ∷ xs) ys = ground (arith, any-append xs ys)

  any-insert_by : (le : A → A → Bool) (x : A) (l : List A) → any (insert_by le x l) ≡ (p x || any l)
  unfolding insert_by
  any-insert_by le x [] = refl
  any-insert_by le x (y ∷ l) = ground (arith, any-insert_by le x l)

  pub any-sort_by : (le : A → A → Bool) (l : List A) → any (sort_by le l) ≡ any l
  unfolding sort_by
  any-sort_by le [] = refl
  any-sort_by le (x ∷ l) = ground (arith, any-insert_by le x (sort_by le l), any-sort_by le l)

module _ {V : Type 0} (p : Text × V → Bool) (k : Text) (v : V) where
  pub any-insert : (m : TextMap V) → p (k, v) ≡ true → any p (insert k v m) ≡ true
  unfolding insert
  any-insert [] h = ground arith
  any-insert ((j, w) ∷ m) h = elim (Bool-cases (text_eq j k)) [
    | inl same ↦ let e = (text_eq_iff j k).0 same in rw same (rw e (ground arith))
    | inr other ↦ let rest = any-insert m h in rw other (ground arith)
  ]

  -- The entry that is replaced may have been the one that passed.
  pub any-insert_of :
      (m : TextMap V)
      → ((w : V) → lookup k m ≡ some w → p (k, w) ≡ true → p (k, v) ≡ true)
      → any p m ≡ true
      → any p (insert k v m) ≡ true
  unfolding insert lookup
  any-insert_of [] keep h = cc
  any-insert_of ((j, w) ∷ m) keep h = elim (Bool-cases (text_eq j k)) [
    | inl same ↦
        let e = (text_eq_iff j k).0 same in
        let replaced : p (k, w) ≡ true → p (k, v) ≡ true =
          keep w (ap (λ t. if t then some w else lookup k m) same) in
        let h' : (p (k, w) || any p m) ≡ true = ap (λ i. p (i, w) || any p m) (sym e) ∙ h in
        rw same (rw e (ground arith))
    | inr other ↦
        let rest =
          any-insert_of m
            (λ x found. keep x (ap (λ t. if t then some w else lookup k m) other ∙ found)) in
        rw other (ground arith)
  ]

-- What holds of every entry, its key included.
abbrev pub EveryEntry : {V : Type 0} → (Text → V → Type 0) → TextMap V → Type 0
EveryEntry P [] = Unit
EveryEntry P ((k, v) ∷ m) = P k v × EveryEntry P m

module _ {V : Type 0} (P : Text → V → Type 0) (k : Text) (v : V) where
  pub EveryEntry-insert : (m : TextMap V) → P k v → EveryEntry P m → EveryEntry P (insert k v m)
  unfolding insert
  EveryEntry-insert [] h a = (h, tt)
  EveryEntry-insert ((j, w) ∷ m) h (own, rest) = elim (Bool-cases (text_eq j k)) [
    | inl same ↦ let e = (text_eq_iff j k).0 same in rw same (rw e (h, rest))
    | inr other ↦ rw other (own, EveryEntry-insert m h rest)
  ]

  pub EveryEntry-lookup : (m : TextMap V) → EveryEntry P m → lookup k m ≡ some v → P k v
  unfolding lookup
  EveryEntry-lookup [] a h = cc
  EveryEntry-lookup ((j, w) ∷ m) (own, rest) h = elim (Bool-cases (text_eq j k)) [
    | inl same ↦
        let e = (text_eq_iff j k).0 same in
        let found : Path (Option V) (some w) (some v) =
          ap (λ t. if t then some w else lookup k m) (sym same) ∙ h in
        subst (P k) (cc) (subst (λ i. P i w) e own)
    | inr other ↦
        EveryEntry-lookup m rest (ap (λ t. if t then some w else lookup k m) (sym other) ∙ h)
  ]

module _ {V : Type 0} (P : Text → V → Type 0) (le : Text × V → Text × V → Bool) where
  EveryEntry-insert_by :
      (k : Text) (v : V) (m : TextMap V)
      → P k v
      → EveryEntry P m
      → EveryEntry P (insert_by le (k, v) m)
  unfolding insert_by
  EveryEntry-insert_by k v [] h a = (h, tt)
  EveryEntry-insert_by k v ((j, w) ∷ m) h (own, rest) = elim (Bool-cases (le (k, v) (j, w))) [
    | inl first ↦ rw first (h, (own, rest))
    | inr later ↦ rw later (own, EveryEntry-insert_by k v m h rest)
  ]

  pub EveryEntry-sort_by : (m : TextMap V) → EveryEntry P m → EveryEntry P (sort_by le m)
  unfolding sort_by
  EveryEntry-sort_by [] a = tt
  EveryEntry-sort_by ((k, v) ∷ m) (own, rest) =
      EveryEntry-insert_by k v (sort_by le m) own (EveryEntry-sort_by m rest)

abbrev pub All : {A : Type 0} → (A → Type 0) → List A → Type 0
All P [] = Unit
All P (x ∷ xs) = P x × All P xs

pub All-append :
    {A : Type 0} (P : A → Type 0) (xs : List A) (x : A) → All P xs → P x → All P (xs ++ (x ∷ []))
All-append P [] x h px = (px, tt)
All-append P (y ∷ xs) x (py, h) px = (py, All-append P xs x h px)

All-insert_by :
    {A : Type 0} (P : A → Type 0) (le : A → A → Bool) (x : A) (l : List A)
    → P x
    → All P l
    → All P (insert_by le x l)
unfolding insert_by
All-insert_by P le x [] px h = (px, tt)
All-insert_by P le x (y ∷ l) px (py, h) = elim (Bool-cases (le x y)) [
  | inl first ↦ rw first (px, (py, h))
  | inr later ↦ rw later (py, All-insert_by P le x l px h)
]

pub All-sort_by :
    {A : Type 0} (P : A → Type 0) (le : A → A → Bool) (l : List A) → All P l → All P (sort_by le l)
unfolding sort_by
All-sort_by P le [] h = tt
All-sort_by P le (x ∷ l) (px, h) = All-insert_by P le x (sort_by le l) px (All-sort_by P le l h)
