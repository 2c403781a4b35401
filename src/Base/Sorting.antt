-- ===== src/Base/Sorting.antt =====
-- `Array.prototype.sort` with a comparator is a stable sort. `le x y` is `compare(x, y) <= 0`.
use mathlib.Core.List.{
  Mem, Perm, Pairwise, mem-cons_self, mem-cons_of_mem, forall_mem-cons, Pairwise-singleton,
}
use mathlib.Core.List.Pairwise
use mathlib.Core.List.Perm
use mathlib.Core.Path.{ap₂}
use junctiongenerator.Base.{
  ◌≡◌, sym, Bool, true, false, List, [], ◌∷◌, if◌then◌else◌, Bool-cases, inl, inr,
}

-- What a comparator must be for the result to be in order.
pub record IsTotalPreorder {A : Type 0} (le : A → A → Bool) : Type 0 where
  pub trans : (a b c : A) → le a b ≡ true → le b c ≡ true → le a c ≡ true
  pub total : (a b : A) → le a b ≡ false → le b a ≡ true

-- Two members that compare as equal are equal.
abbrev pub TellsApart : {A : Type 0} → (A → A → Bool) → List A → Type 0
TellsApart {A} le l = (a b : A) → Mem a l → Mem b l → le a b ≡ true → le b a ≡ true → a ≡ b

module _ {A : Type 0} (le : A → A → Bool) where
  unfoldable pub insert_by : A → List A → List A
  insert_by x [] = x ∷ []
  insert_by x (y ∷ ys) = if le x y then x ∷ y ∷ ys else y ∷ insert_by x ys

  unfoldable pub sort_by : List A → List A
  unfolding insert_by
  sort_by [] = []
  sort_by (x ∷ xs) = insert_by x (sort_by xs)

  abbrev pub Precedes : A → A → Type 0
  Precedes a b = le a b ≡ true

  abbrev pub IsSorted : List A → Type 0
  IsSorted = Pairwise Precedes

  Precedes-prop : (a b : A) → IsProp (Precedes a b)
  Precedes-prop a b = hlevel

  insert_by-perm : (x : A) (l : List A) → Perm (insert_by x l) (x ∷ l)
  unfolding insert_by
  insert_by-perm x [] = Perm.rfl
  insert_by-perm x (y ∷ ys) = elim (Bool-cases (le x y)) [
    | inl first ↦ rw (first, insert_by) Perm.rfl
    | inr later ↦
        rw (later, insert_by) (Perm.trans (Perm.cons y (insert_by-perm x ys)) (Perm.swap x y ys))
  ]

  -- The result is a rearrangement of the input.
  pub sort_by-perm : (l : List A) → Perm (sort_by l) l
  unfolding sort_by
  sort_by-perm [] = Perm.rfl
  sort_by-perm (x ∷ xs) = Perm.trans (insert_by-perm x (sort_by xs)) (Perm.cons x (sort_by-perm xs))

  module _ (o : IsTotalPreorder le) where
    -- `a` precedes everything in the list.
    abbrev IsFirst : A → List A → Type 0
    IsFirst a l = (x : A) → Mem x l → Precedes a x

    IsFirst-cons : (a b : A) (l : List A) → Precedes a b → IsFirst a l → IsFirst a (b ∷ l)
    IsFirst-cons a b l p h = (forall_mem-cons (Precedes-prop a)).1 (p, h)

    Precedes-refl : (a : A) → Precedes a a
    Precedes-refl a = elim (Bool-cases (le a a)) [ inl p ↦ p | inr p ↦ o.total a a p ]

    insert_by-IsSorted : (x : A) {l : List A} → IsSorted l → IsSorted (insert_by x l)
    unfolding insert_by
    insert_by-IsSorted x Pairwise.nil = Pairwise-singleton _ x
    insert_by-IsSorted x (Pairwise.cons {a = y} {l = ys} below s) = elim (Bool-cases (le x y)) [
      | inl first ↦
          let rest : IsFirst x ys = λ z m. o.trans x y z first (below z m) in
          rw (first, insert_by)
            (Pairwise.cons (IsFirst-cons x y ys first rest) (Pairwise.cons below s))
      | inr later ↦
          let tail : IsFirst y (x ∷ ys) = IsFirst-cons y x ys (o.total x y later) below in
          rw (later, insert_by)
            (Pairwise.cons (λ z m. tail z ((Perm.mem_iff (insert_by-perm x ys)).0 m))
              (insert_by-IsSorted x s))
    ]

    -- The result is in order.
    pub sort_by-IsSorted : (l : List A) → IsSorted (sort_by l)
    unfolding sort_by
    sort_by-IsSorted [] = Pairwise.nil
    sort_by-IsSorted (x ∷ xs) = insert_by-IsSorted x (sort_by-IsSorted xs)

    head-Precedes :
        (a b : A) (l r : List A) → IsSorted (a ∷ l) → Perm (b ∷ r) (a ∷ l) → Precedes a b
    head-Precedes a b l r (Pairwise.cons below _) p =
        IsFirst-cons a a l (Precedes-refl a) below b ((Perm.mem_iff p).0 mem-cons_self)

    -- A list whose members the comparator tells apart has one sorted rearrangement.
    sorted_unique : (l r : List A) → TellsApart le l → IsSorted l → IsSorted r → Perm l r → l ≡ r
    sorted_unique [] r t sl sr p = Perm.nil-eq p
    sorted_unique (a ∷ l) [] t sl sr p = Perm.eq-nil p
    sorted_unique (a ∷ l) (b ∷ r) t sl sr p = ap₂ ◌∷◌ same (
        sorted_unique l r (λ x y mx my. t x y (mem-cons_of_mem a mx) (mem-cons_of_mem a my))
          (Pairwise.of_cons sl) (Pairwise.of_cons sr) tails)
      where
        same : a ≡ b
        same =
            t a b mem-cons_self ((Perm.mem_iff p).1 mem-cons_self)
              (head-Precedes a b l r sl (Perm.symm p)) (head-Precedes b a r l sr p)

        tails : Perm l r
        tails = Perm.cons_inv (Perm.trans p (Perm.cons' (sym same) Perm.rfl))

    -- So the order of the input does not show in the result.
    pub sort_by-eq_of_perm : (l r : List A) → TellsApart le l → Perm l r → sort_by l ≡ sort_by r
    sort_by-eq_of_perm l r t p =
        sorted_unique (sort_by l) (sort_by r)
          (λ x y mx my.
            t x y ((Perm.mem_iff (sort_by-perm l)).0 mx) ((Perm.mem_iff (sort_by-perm l)).0 my))
          (sort_by-IsSorted l) (sort_by-IsSorted r)
          (Perm.trans (sort_by-perm l) (Perm.trans p (Perm.symm (sort_by-perm r))))
