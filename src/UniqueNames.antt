-- ===== src/UniqueNames.antt =====
-- utilities/system/src/UniqueFileNamesGenerator.cpp: names numbered by a decimal counter that is kept in
-- a file. Characters are their codes. Paths are read as on POSIX.
pub mod Counter
pub mod Missing
mod Tests
use libre_connect.Base.{
  ℕ, ◌+◌, ◌-◌, ◌≡◌, ◌==◌, Bool, true, false, not, List, [], ◌∷◌, ◌++◌, length, take, drop, ltb,
  if◌then◌else◌, Option, none, some, Result, ok, err, path_error, length_error,
}
use libre_connect.Wire.Text.{Text, is_empty}
use libre_connect.Wire.Buffer.{write_at}

pub record Generator : Type 0 where
  pub path : Text
  pub prefix : Text
  pub suffix : Text
  -- the content of `.counter.conf` behind the stream; `none` where the stream is closed or failed
  pub unique_names_file : Option Text

-- The end of a path that another one follows: a separator comes in where there is none.
abbrev pub separated : Text → Text
separated [] = []
separated (c ∷ []) = if c == 47 then c ∷ [] else c ∷ 47 ∷ []
separated (c ∷ cs) = c ∷ separated cs

-- `(path / prefix).string()`; an absolute second path replaces the first.
abbrev pub joined : Text → Text → Text
joined path [] = separated path
joined path (c ∷ prefix) = if c == 47 then c ∷ prefix else separated path ++ (c ∷ prefix)

-- The stem of the names.
abbrev pub stem : Generator → Text
stem g = joined g.path g.prefix

-- `s_uniqueNamesFile << '0'` at the start of what `open` with `in | out` gives; a file that does not
-- exist is not created, and the stream fails.
abbrev pub opened : Option Text → Option Text
opened none = none
opened (some file) = some (48 ∷ drop 1 file)

-- The equality of paths and the file system are arguments: whether the directories exist behind
-- `create_directories`, which throws else, and what `.counter.conf` there contains, if it exists.
unfoldable pub set_file_path :
    (Text → Text → Bool) → Text → Bool → Option Text → Generator → Result (Unit {0}) × Generator
set_file_path same_path path created file g =
    if same_path g.path path
    then (ok tt, g)
    else if not created
    then (err path_error, record g { path = path; unique_names_file = none })
    else (ok tt, record g { path = path; unique_names_file = opened file })

-- The body of the loop for one character, given what the loop has made of those behind it; true means
-- that it goes on.
unfoldable pub carry_into : ℕ → Bool × Text → Bool × Text
carry_into c (true, cs) = if ltb c 57 then (false, (c + 1) ∷ cs) else (true, 48 ∷ cs)
carry_into c (false, cs) = (false, c ∷ cs)

-- The loop over `content` from its last character on; true means that it has run past the first one.
unfoldable pub increment : Text → Bool × Text
increment [] = (true, [])
increment (c ∷ cs) = carry_into c (increment cs)

-- `if (i == -1) content.insert(content.begin(), '1');`
unfoldable pub insert_one : Bool × Text → Text
insert_one (true, cs) = 49 ∷ cs
insert_one (false, cs) = cs

abbrev pub next_content : Text → Text
next_content content = insert_one (increment content)

-- `tellg()` of a failed stream is -1, which is no positive size.
unfoldable pub read_content : Option Text → Text
read_content none = 48 ∷ []
read_content (some file) = if is_empty file then 48 ∷ [] else file

-- `seekp(0); s_uniqueNamesFile << content;` writes over the start of the file; a failed stream takes
-- nothing.
unfoldable pub write_content : Text → Option Text → Option Text
write_content content none = none
write_content content (some file) = some (content ++ drop (length content) file)

unfoldable pub get_unique_name : Generator → Text × Generator
get_unique_name g =
    let content = read_content g.unique_names_file in
    (
      (stem g ++ content) ++ g.suffix,
      record g { unique_names_file = write_content (next_content content) g.unique_names_file },
    )

abbrev pub sized : Option Text → Text × Generator → Generator → Result Text × Generator
sized none named g = (err length_error, g)
sized (some file) named g = (ok named.0, named.1)

-- The form with an argument for the result holds `tellg()` in a `size_t`, so that -1 is a size that
-- `resize` throws at.
unfoldable pub get_unique_name_into : Generator → Result Text × Generator
get_unique_name_into g = sized g.unique_names_file (get_unique_name g) g
