-- ===== src/Transfer/Paths/Plain.antt =====
-- A plain relative path, names joined by slashes, is taken apart into its names and left as it is.
use libre_connect.Base.{
  same_text, same_text_refl, ◌≡◌, refl, sym, ap, ◌∙◌, true, false, ◌||◌, [], ◌∷◌, ◌++◌,
  append_assoc, ◌==◌, Option, some, All, append-nil,
}
use mathlib.Core.List.{reverse, reverse-cons, reverse-reverse}
use libre_connect.Wire.Text.{Text, is_empty}
use libre_connect.Transfer.Paths.{
  FilePath, slash, dot, dot_dot, is_subpath, is_rooted, flush, split_name, split, push, push_all,
  or_dot, lexically_normal, has_dot_dot, checked, build_safe_receive_path,
}

-- A name that stands for itself: no text of nothing, of one dot or of two, and no slash in it.
pub record IsPlain (name : Text) : Type 0 where
  pub filled : is_empty name ≡ false
  pub one_part : All (λ c. (c == slash) ≡ false) name
  pub not_dot : same_text name dot ≡ false
  pub not_dot_dot : same_text name dot_dot ≡ false

abbrev pub join : FilePath → Text
join [] = []
join (name ∷ []) = name
join (name ∷ (next ∷ names)) = name ++ (slash ∷ join (next ∷ names))

flush-filled :
    (name : Text) (names : FilePath) → is_empty name ≡ false → flush name names ≡ name ∷ names
flush-filled [] names h = cc
flush-filled (c ∷ cs) names h = refl

split_name-append :
    (name tail : Text)
    → All (λ c. (c == slash) ≡ false) name
    → split_name (name ++ tail) ≡ (name ++ (split_name tail).0, (split_name tail).1)
unfolding split_name
split_name-append [] tail h = refl
split_name-append (c ∷ cs) tail h = rw h.0 (rw (split_name-append cs tail h.1) refl)

split_name-join :
    (name : Text) (names : FilePath)
    → All IsPlain (name ∷ names)
    → split_name (join (name ∷ names)) ≡ (name, names)
unfolding split_name
split_name-join name [] h =
    sym (ap split_name (append-nil name)) ∙ split_name-append name [] h.0.one_part ∙ λ i.
    (append-nil name i, [])
split_name-join name (next ∷ names) h =
    split_name-append name (slash ∷ join (next ∷ names)) h.0.one_part
    ∙ (λ i. (
      append-nil name i,
      flush (split_name-join next names h.1 i).0 (split_name-join next names h.1 i).1,
    ))
    ∙ λ i. (name, flush-filled next names h.1.0.filled i)

split-join :
    (name : Text) (names : FilePath)
    → All IsPlain (name ∷ names)
    → split (join (name ∷ names)) ≡ name ∷ names
unfolding split
split-join name names h =
    (λ i. flush (split_name-join name names h i).0 (split_name-join name names h i).1)
    ∙ flush-filled name names h.0.filled

push-plain : (name : Text) (stack : FilePath) → IsPlain name → push name stack ≡ name ∷ stack
unfolding push
push-plain name stack p = rw p.not_dot (rw p.not_dot_dot refl)

push_all-plain :
    (names stack : FilePath) → All IsPlain names → push_all names stack ≡ reverse names ++ stack
unfolding push_all
push_all-plain [] stack h = refl
push_all-plain (name ∷ names) stack h =
    ap (push_all names) (push-plain name stack h.0)
    ∙ push_all-plain names (name ∷ stack) h.1
    ∙ sym (
        ap (λ l. l ++ stack) (reverse-cons name names)
        ∙ append_assoc (reverse names) (name ∷ []) stack)

normal-plain :
    (name : Text) (names : FilePath)
    → All IsPlain (name ∷ names)
    → lexically_normal (name ∷ names) ≡ name ∷ names
unfolding lexically_normal
normal-plain name names h =
    ap (λ (l : FilePath). or_dot (reverse l))
      (push_all-plain (name ∷ names) [] h ∙ append-nil (reverse (name ∷ names)))
    ∙ ap or_dot (reverse-reverse (name ∷ names))

plain_up : (names : FilePath) → All IsPlain names → has_dot_dot names ≡ false
unfolding has_dot_dot
plain_up [] h = refl
plain_up (name ∷ names) h = rw h.0.not_dot_dot (plain_up names h.1)

is_subpath-append : (base rest : FilePath) → is_subpath base (base ++ rest) ≡ true
unfolding is_subpath
is_subpath-append [] rest = refl
is_subpath-append (name ∷ base) rest = rw (same_text_refl name) (is_subpath-append base rest)

rooted_join :
    (name : Text) (names : FilePath)
    → All IsPlain (name ∷ names)
    → (is_empty (join (name ∷ names)) || is_rooted (join (name ∷ names))) ≡ false
rooted_join name names h = go name names h.0.filled h.0.one_part
  where
    go :
        (name : Text) (names : FilePath)
        → is_empty name ≡ false
        → All (λ c. (c == slash) ≡ false) name
        → (is_empty (join (name ∷ names)) || is_rooted (join (name ∷ names))) ≡ false
    go [] names f o = cc
    go (c ∷ cs) [] f o = o.0
    go (c ∷ cs) (next ∷ names) f o = o.0

-- Where the file system has no link on the way, a plain path is accepted and goes below the base.
pub build_safe_receive_path-plain :
    (weakly_canonical : FilePath → Option FilePath) (base : FilePath) (name : Text)
    (names : FilePath)
    → All IsPlain (name ∷ names)
    → weakly_canonical (base ++ (name ∷ names)) ≡ some (base ++ (name ∷ names))
    → build_safe_receive_path weakly_canonical base (join (name ∷ names))
      ≡ some (base ++ (name ∷ names))
unfolding build_safe_receive_path checked
build_safe_receive_path-plain weakly_canonical base name names h e =
    let normal : lexically_normal (split (join (name ∷ names))) ≡ name ∷ names =
      ap lexically_normal (split-join name names h) ∙ normal-plain name names h in
    rw (rooted_join name names h) (
      rw normal
        (rw (plain_up (name ∷ names) h) (rw e (rw (is_subpath-append base (name ∷ names)) refl))))
