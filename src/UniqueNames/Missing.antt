-- ===== src/UniqueNames/Missing.antt =====
-- The counter where its file does not exist.
use libre_connect.Base.{
  ℕ, zero, suc, ◌≡◌, refl, ◌∙◌, Bool, true, false, [], ◌∷◌, ◌++◌, All, none, ok, err, length_error,
}
use libre_connect.Wire.Text.{Text}
use libre_connect.UniqueNames.{
  Generator, joined, set_file_path, read_content, write_content, get_unique_name,
  get_unique_name_into,
}
use libre_connect.UniqueNames.Counter.{names}

-- The name without a counter.
abbrev pub name_0 : Text → Text → Text → Text
name_0 path prefix suffix = (joined path prefix ++ (48 ∷ [])) ++ suffix

closed_call :
    (g : Generator)
    → g.unique_names_file ≡ none
    → ((get_unique_name g).0 ≡ name_0 g.path g.prefix g.suffix)
      × ((get_unique_name g).1.unique_names_file ≡ none)
unfolding get_unique_name read_content write_content
closed_call g e = rw e (refl, refl)

closed_names :
    (k : ℕ) (g : Generator) (path prefix suffix : Text)
    → g.path ≡ path
    → g.prefix ≡ prefix
    → g.suffix ≡ suffix
    → g.unique_names_file ≡ none
    → All (λ name. name ≡ name_0 path prefix suffix) (names k g)
closed_names zero g path prefix suffix p q s e = tt
closed_names (suc k) g path prefix suffix p q s e =
    let (name, closed) = closed_call g e in
    (
      name ∙ (λ i. name_0 (p i) (q i) (s i)),
      closed_names k (get_unique_name g).1 path prefix suffix (unfold get_unique_name in p)
          (unfold get_unique_name in q) (unfold get_unique_name in s) closed,
    )

closed_into :
    (g : Generator) → g.unique_names_file ≡ none → get_unique_name_into g ≡ (err length_error, g)
unfolding get_unique_name_into
closed_into g e = rw e refl

set_file_path_missing :
    (same_path : Text → Text → Bool) (path : Text) (g : Generator)
    → same_path g.path path ≡ false
    → set_file_path same_path path true none g
      ≡ (ok tt, record g { path = path; unique_names_file = none })
unfolding set_file_path
set_file_path_missing same_path path g e = rw e refl

-- Where the directory of another path exists and `.counter.conf` in it does not, `SetFilePath` returns,
-- but the stream has failed: every later call of `GetUniqueName` returns the same name with the number
-- 0, and the form with an argument for the result throws.
pub missing_names :
    (same_path : Text → Text → Bool) (path : Text) (g : Generator) (k : ℕ)
    → same_path g.path path ≡ false
    → (g' : Generator) × (set_file_path same_path path true none g ≡ (ok tt, g'))
      × All (λ name. name ≡ name_0 path g.prefix g.suffix) (names k g')
      × (get_unique_name_into g' ≡ (err length_error, g'))
missing_names same_path path g k e =
    let g' = record g { path = path; unique_names_file = none } in
    (
      g',
      set_file_path_missing same_path path g e,
      closed_names k g' path g.prefix g.suffix refl refl refl refl,
      closed_into g' refl,
    )
