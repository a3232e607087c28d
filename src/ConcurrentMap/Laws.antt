-- ===== src/ConcurrentMap/Laws.antt =====
-- The map is a finite function: what each operation leaves at every key.
use libre_connect.Base.{
  ℕ, ◌+◌, ◌≡◌, refl, true, false, [], ◌∷◌, length, ◌==◌, if◌then◌else◌, none, some, arith, inl, inr,
  Bool-cases,
}
use libre_connect.ConcurrentMap.{
  ConcurrentUnorderedMap, get, contains, insert_or_assign, erase, pop, assign, size,
}

module _ {ℓ} {V : Type ℓ} where
  -- No key twice, as in every `unordered_map`.
  abbrev pub HasKeysOnce : ConcurrentUnorderedMap V → Type 0
  HasKeysOnce [] = Unit {0}
  HasKeysOnce ((k, v) ∷ m) = (contains k m ≡ false) × HasKeysOnce m

  pub get-insert_or_assign :
      (j key : ℕ) (value : V) (m : ConcurrentUnorderedMap V)
      → get j (insert_or_assign key value m) ≡ (if key == j then some value else get j m)
  unfolding get insert_or_assign
  get-insert_or_assign j key value [] = refl
  get-insert_or_assign j key value ((k, v) ∷ m) = ground (arith, get-insert_or_assign j key value m)

  pub contains-insert_or_assign :
      (j key : ℕ) (value : V) (m : ConcurrentUnorderedMap V)
      → contains j (insert_or_assign key value m) ≡ (if key == j then true else contains j m)
  unfolding contains insert_or_assign
  contains-insert_or_assign j key value [] = refl
  contains-insert_or_assign j key value ((k, v) ∷ m) =
      ground (arith, contains-insert_or_assign j key value m)

  pub get-missing :
      (key : ℕ) (m : ConcurrentUnorderedMap V) → contains key m ≡ false → get key m ≡ none
  unfolding get contains
  get-missing key [] h = refl
  get-missing key ((k, v) ∷ m) h = ground (arith, get-missing key m)

  pub contains-erase :
      (j key : ℕ) (m : ConcurrentUnorderedMap V)
      → HasKeysOnce m
      → contains j (erase key m) ≡ (if key == j then false else contains j m)
  unfolding contains erase
  contains-erase j key [] h = ground arith
  contains-erase j key ((k, v) ∷ m) h = ground (arith, contains-erase j key m h.1, h.0)

  pub get-erase :
      (j key : ℕ) (m : ConcurrentUnorderedMap V)
      → HasKeysOnce m
      → get j (erase key m) ≡ (if key == j then none else get j m)
  unfolding get erase
  get-erase j key [] h = ground arith
  get-erase j key ((k, v) ∷ m) h = ground (arith, get-erase j key m h.1, get-missing k m h.0)

  pub insert_or_assign-HasKeysOnce :
      (key : ℕ) (value : V) (m : ConcurrentUnorderedMap V)
      → HasKeysOnce m
      → HasKeysOnce (insert_or_assign key value m)
  unfolding insert_or_assign contains
  insert_or_assign-HasKeysOnce key value [] h = (refl, tt)
  insert_or_assign-HasKeysOnce key value ((k, v) ∷ m) h = elim (Bool-cases (k == key)) [
    | inl same ↦ rw same h
    | inr other ↦ rw other (
      ground (arith, contains-insert_or_assign k key value m, h.0),
      insert_or_assign-HasKeysOnce key value m h.1,
    )
  ]

  pub erase-HasKeysOnce :
      (key : ℕ) (m : ConcurrentUnorderedMap V) → HasKeysOnce m → HasKeysOnce (erase key m)
  unfolding erase
  erase-HasKeysOnce key [] h = tt
  erase-HasKeysOnce key ((k, v) ∷ m) h = elim (Bool-cases (k == key)) [
    | inl same ↦ rw same h.1
    | inr other ↦
        rw other (ground (arith, contains-erase k key m h.1, h.0), erase-HasKeysOnce key m h.1)
  ]

  length-erase :
      (key : ℕ) (m : ConcurrentUnorderedMap V)
      → length (erase key m) + (if contains key m then 1 else 0) ≡ length m
  unfolding contains erase
  length-erase key [] = refl
  length-erase key ((k, v) ∷ m) = ground (arith, length-erase key m)

  length-insert_or_assign :
      (key : ℕ) (value : V) (m : ConcurrentUnorderedMap V)
      → length (insert_or_assign key value m) ≡ length m + (if contains key m then 0 else 1)
  unfolding contains insert_or_assign
  length-insert_or_assign key value [] = refl
  length-insert_or_assign key value ((k, v) ∷ m) =
      ground (arith, length-insert_or_assign key value m)

  -- On a map that holds no key twice: a value that is inserted is found under its key and the others
  -- stay; a popped key gives its value and is gone while the others stay; `Assign` changes the map
  -- where the key is there and leaves it elsewhere; the size follows; and no key is there twice.
  pub map_lem :
      (m : ConcurrentUnorderedMap V) (key j : ℕ) (value : V)
      → HasKeysOnce m
      → (get j (insert_or_assign key value m) ≡ (if key == j then some value else get j m))
        × (HasKeysOnce (insert_or_assign key value m))
        × (size (insert_or_assign key value m) ≡ size m + (if contains key m then 0 else 1))
        × ((pop key m).0 ≡ get key m)
        × (get j (pop key m).1 ≡ (if key == j then none else get j m))
        × (HasKeysOnce (pop key m).1)
        × (size (pop key m).1 + (if contains key m then 1 else 0) ≡ size m)
        × (get j (assign key value m).1
            ≡ (if contains key m then (if key == j then some value else get j m) else get j m))
        × ((assign key value m).0 ≡ contains key m)
  unfolding pop assign
  map_lem m key j value h = (
    get-insert_or_assign j key value m,
    insert_or_assign-HasKeysOnce key value m h,
    length-insert_or_assign key value m,
    refl,
    get-erase j key m h,
    erase-HasKeysOnce key m h,
    length-erase key m,
    ground (arith, get-insert_or_assign j key value m),
    ground arith,
  )
