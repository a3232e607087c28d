-- ===== src/Transfer/Paths.antt =====
-- `IsSubpath` and `BuildSafeReceivePath` of modules/common/src/TransferChannel.cpp. A path is the list of
-- its components; the texts that name it are read as on POSIX, where a path has no root name. A
-- separator behind the last component is left out. `weakly_canonical` follows the links of the file
-- system and is a parameter.
pub mod Plain
use libre_connect.Base.{
  same_text, same_text-eq, ℕ, ◌≡◌, refl, sym, ap, ◌∙◌, Bool, true, false, ◌&&◌, ◌||◌, List, [], ◌∷◌,
  ◌++◌, ◌==◌, ==→eq, if◌then◌else◌, Option, none, some, Bool-cases, inl, inr, arith,
}
use mathlib.Core.List.{reverse}
use libre_connect.Wire.Text.{Text, is_empty}

abbrev pub FilePath : Type 0
FilePath = List Text

abbrev pub slash : ℕ
slash = 47

abbrev pub dot : Text
dot = 46 ∷ []

abbrev pub dot_dot : Text
dot_dot = 46 ∷ 46 ∷ []

-- `std::mismatch(base.begin(), base.end(), candidate.begin(), candidate.end()).first == base.end()`
unfoldable pub is_subpath : FilePath → FilePath → Bool
is_subpath [] candidate = true
is_subpath (name ∷ base) [] = false
is_subpath (name ∷ base) (other ∷ candidate) = same_text name other && is_subpath base candidate

-- `is_absolute() || has_root_directory()`
abbrev pub is_rooted : Text → Bool
is_rooted [] = false
is_rooted (c ∷ cs) = c == slash

abbrev pub flush : Text → FilePath → FilePath
flush [] names = names
flush (c ∷ cs) names = (c ∷ cs) ∷ names

-- The name at the head of a text, and those behind it.
unfoldable pub split_name : Text → Text × FilePath
split_name [] = ([], [])
split_name (c ∷ cs) =
    let (name, names) = split_name cs in
    if c == slash then ([], flush name names) else (c ∷ name, names)

-- The components of a relative path.
unfoldable pub split : Text → FilePath
unfolding split_name
split text = flush (split_name text).0 (split_name text).1

-- `lexically_normal`, over the components so far in reverse order.
unfoldable pub go_up : FilePath → FilePath
go_up [] = dot_dot ∷ []
go_up (top ∷ rest) = if same_text top dot_dot then dot_dot ∷ (top ∷ rest) else rest

unfoldable pub push : Text → FilePath → FilePath
unfolding go_up same_text
push name stack =
    if same_text name dot
    then stack
    else if same_text name dot_dot
    then go_up stack
    else name ∷ stack

unfoldable pub push_all : FilePath → FilePath → FilePath
push_all [] stack = stack
push_all (name ∷ names) stack = push_all names (push name stack)

abbrev pub or_dot : FilePath → FilePath
or_dot [] = dot ∷ []
or_dot (name ∷ names) = name ∷ names

unfoldable pub lexically_normal : FilePath → FilePath
unfolding push_all push
lexically_normal names = or_dot (reverse (push_all names []))

unfoldable pub has_dot_dot : FilePath → Bool
unfolding same_text
has_dot_dot [] = false
has_dot_dot (name ∷ names) = same_text name dot_dot || has_dot_dot names

-- Behind `weakly_canonical`, of which none is an error code.
unfoldable pub checked : FilePath → Option FilePath → Option FilePath
unfolding is_subpath
checked base none = none
checked base (some candidate) = if is_subpath base candidate then some candidate else none

unfoldable pub build_safe_receive_path :
    (FilePath → Option FilePath) → FilePath → Text → Option FilePath
unfolding lexically_normal has_dot_dot checked split
build_safe_receive_path weakly_canonical base raw =
    let relative = lexically_normal (split raw) in
    if is_empty raw || is_rooted raw
    then none
    else if has_dot_dot relative
    then none
    else checked base (weakly_canonical (base ++ relative))

-- What a path under a directory looks like.
abbrev pub Under : FilePath → FilePath → Type 0
Under base path = (rest : FilePath) × (path ≡ base ++ rest)

is_subpath-Under : (base path : FilePath) → is_subpath base path ≡ true → Under base path
unfolding is_subpath
is_subpath-Under [] path h = (path, refl)
is_subpath-Under (name ∷ base) [] h = cc
is_subpath-Under (name ∷ base) (other ∷ path) h = elim (Bool-cases (same_text name other)) [
  | inl same ↦
      let (rest, e) = is_subpath-Under base path (rw same at h) in
      (rest, λ i. sym (same_text-eq name other same) i ∷ e i)
  | inr differ ↦ cc (rw differ at h)
]

checked-Under :
    (base : FilePath) (o : Option FilePath) (path : FilePath)
    → checked base o ≡ some path
    → Under base path
unfolding checked
checked-Under base none path h = cc
checked-Under base (some candidate) path h = elim (Bool-cases (is_subpath base candidate)) [
  | inl inside ↦
      let (rest, e) = is_subpath-Under base candidate inside in
      (rest, sym (some_eq (rw inside at h)) ∙ e)
  | inr outside ↦ cc (rw outside at h)
]
  where
    some_eq : ◌≡◌ {A = Option FilePath} (some candidate) (some path) → candidate ≡ path
    some_eq e = cc

-- A path that is handed out lies under the base, whatever the links of the file system say.
pub build_safe_receive_path-Under :
    (weakly_canonical : FilePath → Option FilePath) (base : FilePath) (raw : Text) (path : FilePath)
    → build_safe_receive_path weakly_canonical base raw ≡ some path
    → Under base path
unfolding build_safe_receive_path
build_safe_receive_path-Under weakly_canonical base raw path h =
    guarded (is_empty raw || is_rooted raw) _
      (guarded (has_dot_dot (lexically_normal (split raw))) _
        (checked-Under base (weakly_canonical (base ++ lexically_normal (split raw))) path))
      h
  where
    guarded :
        (b : Bool) (o : Option FilePath)
        → (o ≡ some path → Under base path)
        → (if b then none else o) ≡ some path
        → Under base path
    guarded true o k e = cc
    guarded false o k e = k e
