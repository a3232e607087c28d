-- ===== src/UniqueNames/Tests.antt =====
-- Names over a carry.
use libre_connect.Base.{
  ◌+◌, ◌≤◌, ◌≡◌, refl, true, false, same_text, none, some, ok, err, length_error, [], ◌∷◌, length,
  arith, All,
}
use libre_connect.Wire.Text.{Text}
use libre_connect.UniqueNames.{Generator, next_content, set_file_path, get_unique_name_into}
use libre_connect.UniqueNames.Missing.{name_0, missing_names}
use libre_connect.UniqueNames.Counter.{
  IsDigit, value, names, Distinct, next_content_lem, names-Distinct,
}

-- "98"
abbrev ninety_eight : Text
ninety_eight = 57 ∷ 56 ∷ []

abbrev generator : Generator
generator = record {
  path = 47 ∷ 102 ∷ [];
  prefix = 112 ∷ [];
  suffix = 46 ∷ 98 ∷ [];
  unique_names_file = some ninety_eight;
}

next_content_lem_example :
    (value (next_content ninety_eight) ≡ value ninety_eight + 1)
    × (All IsDigit (next_content ninety_eight)
        × (length ninety_eight ≤ length (next_content ninety_eight)))
next_content_lem_example =
    next_content_lem ninety_eight ((omega arith, omega arith), ((omega arith, omega arith), tt))

names-Distinct_example : Distinct (names 4 generator)
names-Distinct_example =
    names-Distinct 4 generator ninety_eight refl
      ((omega arith, omega arith), ((omega arith, omega arith), tt))

-- "/g"
abbrev elsewhere : Text
elsewhere = 47 ∷ 103 ∷ []

other : same_text generator.path elsewhere ≡ false
unfolding same_text
other = refl

missing_names_example :
    (g' : Generator) × (set_file_path same_text elsewhere true none generator ≡ (ok tt, g'))
    × All (λ name. name ≡ name_0 elsewhere generator.prefix generator.suffix) (names 3 g')
    × (get_unique_name_into g' ≡ (err length_error, g'))
missing_names_example = missing_names same_text elsewhere generator 3 other
