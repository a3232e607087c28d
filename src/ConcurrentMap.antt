-- ===== src/ConcurrentMap.antt =====
-- utilities/system/inc/ConcurrentUnorderedMap.h: every operation holds the mutex and is one step. The
-- map is a list of entries; the order stands for the one in which `unordered_map` is walked.
pub mod Laws
mod Tests
use libre_connect.Base.{
  ℕ, ◌+◌, Bool, true, false, List, [], ◌∷◌, map, length, ◌==◌, if◌then◌else◌, Option, none, some,
}

abbrev pub ConcurrentUnorderedMap {ℓ} : Type ℓ → Type ℓ
ConcurrentUnorderedMap V = List (ℕ × V)

module _ {ℓ} {V : Type ℓ} where
  -- `m_map.contains(key) ? m_map.at(key)`
  unfoldable pub get : ℕ → ConcurrentUnorderedMap V → Option V
  get key [] = none
  get key ((k, v) ∷ m) = if k == key then some v else get key m

  unfoldable pub contains : ℕ → ConcurrentUnorderedMap V → Bool
  contains key [] = false
  contains key ((k, v) ∷ m) = if k == key then true else contains key m

  -- `m_map[key] = value`
  unfoldable pub insert_or_assign : ℕ → V → ConcurrentUnorderedMap V → ConcurrentUnorderedMap V
  insert_or_assign key value [] = (key, value) ∷ []
  insert_or_assign key value ((k, v) ∷ m) =
      if k == key then (k, value) ∷ m else (k, v) ∷ insert_or_assign key value m

  unfoldable pub erase : ℕ → ConcurrentUnorderedMap V → ConcurrentUnorderedMap V
  erase key [] = []
  erase key ((k, v) ∷ m) = if k == key then m else (k, v) ∷ erase key m

  unfoldable pub pop : ℕ → ConcurrentUnorderedMap V → Option V × ConcurrentUnorderedMap V
  unfolding get erase
  pop key m = (get key m, erase key m)

  unfoldable pub pop_all : ConcurrentUnorderedMap V → List V × ConcurrentUnorderedMap V
  pop_all m = (map (λ e. e.1) m, [])

  unfoldable pub assign : ℕ → V → ConcurrentUnorderedMap V → Bool × ConcurrentUnorderedMap V
  unfolding contains insert_or_assign
  assign key value m = if contains key m then (true, insert_or_assign key value m) else (false, m)

  abbrev pub size : ConcurrentUnorderedMap V → ℕ
  size m = length m
