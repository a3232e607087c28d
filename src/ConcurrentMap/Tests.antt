-- ===== src/ConcurrentMap/Tests.antt =====
-- A map with three keys.
use libre_connect.Base.{ℕ, ◌+◌, ◌≡◌, refl, [], ◌∷◌, ◌==◌, if◌then◌else◌, none, some}
use libre_connect.ConcurrentMap.{
  ConcurrentUnorderedMap, get, contains, insert_or_assign, pop, assign, size,
}
use libre_connect.ConcurrentMap.Laws.{HasKeysOnce, map_lem}

abbrev three : ConcurrentUnorderedMap ℕ
three = (4, 40) ∷ (2, 20) ∷ (9, 90) ∷ []

three-HasKeysOnce : HasKeysOnce three
unfolding contains
three-HasKeysOnce = (refl, (refl, (refl, tt)))

map_lem_example :
    (get 9 (insert_or_assign 2 21 three) ≡ (if 2 == 9 then some 21 else get 9 three))
    × (HasKeysOnce (insert_or_assign 2 21 three))
    × (size (insert_or_assign 2 21 three) ≡ size three + (if contains 2 three then 0 else 1))
    × ((pop 2 three).0 ≡ get 2 three)
    × (get 9 (pop 2 three).1 ≡ (if 2 == 9 then none else get 9 three))
    × (HasKeysOnce (pop 2 three).1)
    × (size (pop 2 three).1 + (if contains 2 three then 1 else 0) ≡ size three)
    × (get 9 (assign 2 21 three).1
        ≡ (if contains 2 three then (if 2 == 9 then some 21 else get 9 three) else get 9 three))
    × ((assign 2 21 three).0 ≡ contains 2 three)
map_lem_example = map_lem three 2 9 21 three-HasKeysOnce
