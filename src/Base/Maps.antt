-- ===== src/Base/Maps.antt =====
-- A JavaScript `Map` with string keys: entries in insertion order.
use junctiongenerator.Base.{◌≡◌, refl, ◌≢◌, Option, none, some, List, [], ◌∷◌, arith, if◌then◌else◌}
use junctiongenerator.Base.Texts.{Text, text_eq, text_eq_iff}

abbrev pub TextMap : Type 0 → Type 0
TextMap V = List (Text × V)

module _ {V : Type 0} where
  -- `m.get(k)`
  unfoldable pub lookup : Text → TextMap V → Option V
  lookup k [] = none
  lookup k ((j, v) ∷ m) = if text_eq j k then some v else lookup k m

  -- `m.set(k, v)`: a key that is there keeps its place.
  unfoldable pub insert : Text → V → TextMap V → TextMap V
  insert k v [] = (k, v) ∷ []
  insert k v ((j, w) ∷ m) = if text_eq j k then (j, v) ∷ m else (j, w) ∷ insert k v m

  -- `m.delete(k)`
  unfoldable pub erase : Text → TextMap V → TextMap V
  erase k [] = []
  erase k ((j, w) ∷ m) = if text_eq j k then m else (j, w) ∷ erase k m

  -- No key stands twice.
  abbrev pub HasDistinctKeys : TextMap V → Type 0
  HasDistinctKeys [] = Unit
  HasDistinctKeys ((k, v) ∷ m) = (lookup k m ≡ none) × HasDistinctKeys m

  pub lookup-insert :
      (k j : Text) (v : V) (m : TextMap V)
      → lookup j (insert k v m) ≡ (if text_eq k j then some v else lookup j m)
  unfolding lookup insert
  lookup-insert k j v [] = refl
  lookup-insert k j v ((i, w) ∷ m) =
      ground (arith, text_eq_iff k j, text_eq_iff i k, text_eq_iff i j, lookup-insert k j v m)

  pub lookup-erase_ne : (k j : Text) (m : TextMap V) → j ≢ k → lookup j (erase k m) ≡ lookup j m
  unfolding lookup erase
  lookup-erase_ne k j [] h = refl
  lookup-erase_ne k j ((i, w) ∷ m) h =
      ground (arith, text_eq_iff i k, text_eq_iff i j, lookup-erase_ne k j m h)

  pub lookup-erase_self :
      (k : Text) (m : TextMap V) → HasDistinctKeys m → lookup k (erase k m) ≡ none
  unfolding lookup erase
  lookup-erase_self k [] h = refl
  lookup-erase_self k ((i, w) ∷ m) h = ground (arith, text_eq_iff i k, lookup-erase_self k m h.1)

  pub insert-HasDistinctKeys :
      (k : Text) (v : V) (m : TextMap V) → HasDistinctKeys m → HasDistinctKeys (insert k v m)
  unfolding lookup insert
  insert-HasDistinctKeys k v [] h = (refl, tt)
  insert-HasDistinctKeys k v ((i, w) ∷ m) h = ground (
    arith,
    text_eq_iff i k,
    text_eq_iff k i,
    lookup-insert k i v m,
    insert-HasDistinctKeys k v m h.1,
  )

  pub erase-HasDistinctKeys :
      (k : Text) (m : TextMap V) → HasDistinctKeys m → HasDistinctKeys (erase k m)
  unfolding lookup erase
  erase-HasDistinctKeys k [] h = tt
  erase-HasDistinctKeys k ((i, w) ∷ m) h =
      ground (arith, text_eq_iff i k, lookup-erase_ne k i m, erase-HasDistinctKeys k m h.1)
