-- ===== src/Clipboard/Positions.antt =====
-- What a buffer holds at each position behind a `memcpy` of a piece of a text.
use libre_connect.Base.{
  ℕ, zero, suc, ◌+◌, ◌-◌, ◌≤◌, ◌<◌, ◌≡◌, refl, ap, ◌∙◌, Bool, true, false, ◌&&◌, List, [], ◌∷◌,
  ◌++◌, length, take, drop, length-take, get_elem?, Option, none, some, arith, ltb, leb, inl, inr,
  le_or_lt,
}
use libre_connect.Wire.Buffer.{Buffer, write_at}
use libre_connect.Wire.Text.{Text}

module _ {ℓ} {A : Type ℓ} where
  get_elem-append_left :
      (xs ys : List A) (i : ℕ) → i < length xs → get_elem? (xs ++ ys) i ≡ get_elem? xs i
  get_elem-append_left [] ys i h = absurd (omega arith)
  get_elem-append_left (x ∷ xs) ys zero h = refl
  get_elem-append_left (x ∷ xs) ys (suc i) h = get_elem-append_left xs ys i (omega arith)

  get_elem-append_right :
      (xs ys : List A) (i k : ℕ) → length xs + k ≡ i → get_elem? (xs ++ ys) i ≡ get_elem? ys k
  get_elem-append_right [] ys i k h =
      let e : i ≡ k = omega arith in ap (λ (j : ℕ). get_elem? ys j) e
  get_elem-append_right (x ∷ xs) ys zero k h = absurd (omega arith)
  get_elem-append_right (x ∷ xs) ys (suc i) k h = get_elem-append_right xs ys i k (omega arith)

  get_elem-take : (n i : ℕ) (xs : List A) → i < n → get_elem? (take n xs) i ≡ get_elem? xs i
  get_elem-take zero i xs h = absurd (omega arith)
  get_elem-take (suc n) i [] h = refl
  get_elem-take (suc n) zero (x ∷ xs) h = refl
  get_elem-take (suc n) (suc i) (x ∷ xs) h = get_elem-take n i xs (omega arith)

  get_elem-drop : (n i k : ℕ) (xs : List A) → n + i ≡ k → get_elem? (drop n xs) i ≡ get_elem? xs k
  get_elem-drop zero i k xs h = let e : i ≡ k = omega arith in ap (λ (j : ℕ). get_elem? xs j) e
  get_elem-drop (suc n) i k [] h = refl
  get_elem-drop (suc n) i zero (x ∷ xs) h = absurd (omega arith)
  get_elem-drop (suc n) i (suc k) (x ∷ xs) h = get_elem-drop n i k xs (omega arith)

  pub some-injective : (x y : A) → ◌≡◌ {A = Option A} (some x) (some y) → x ≡ y
  some-injective x y e = ap get e
    where
      get : Option A → A
      get none = x
      get (some z) = z

  -- Lists of the same length with the same elements at all positions.
  pub same_elements :
      (xs ys : List A)
      → length xs ≡ length ys
      → ((i : ℕ) → i < length ys → get_elem? xs i ≡ get_elem? ys i)
      → xs ≡ ys
  same_elements [] [] h e = refl
  same_elements [] (y ∷ ys) h e = absurd (omega arith)
  same_elements (x ∷ xs) [] h e = absurd (omega arith)
  same_elements (x ∷ xs) (y ∷ ys) h e =
      let head : x ≡ y = some-injective x y (e 0 (omega arith)) in
      let tail : xs ≡ ys = same_elements xs ys (omega arith) (λ i l. e (suc i) (omega arith)) in
      λ i. head i ∷ tail i

-- A piece of the text stands at the offset.
pub record IsPiece (t : Text) (offset : ℕ) (fragment : Text) : Type 0 where
  pub part : fragment ≡ take (length fragment) (drop offset t)
  pub inside : offset + length fragment ≤ length t

-- The buffer agrees with the text at a position.
abbrev pub Agrees : Text → Buffer → ℕ → Type 0
Agrees t buffer i = get_elem? buffer i ≡ get_elem? t i

abbrev pub is_within : ℕ → ℕ → Text → Bool
is_within i offset fragment = leb offset i && ltb i (offset + length fragment)

module _ (t : Text) (buffer : Buffer) (offset : ℕ) (fragment : Text) where
  inside-Agrees :
      (i : ℕ)
      → IsPiece t offset fragment
      → length buffer ≡ length t
      → offset ≤ i
      → i < offset + length fragment
      → Agrees t (write_at buffer offset fragment) i
  unfolding write_at
  inside-Agrees i p l h k =
      get_elem-append_right (take offset buffer) _ i (i - offset)
        (omega (arith, p.inside, length-take offset buffer))
      ∙ get_elem-append_left fragment _ (i - offset) (omega arith)
      ∙ ap (λ (f : Text). get_elem? f (i - offset)) p.part
      ∙ get_elem-take (length fragment) (i - offset) (drop offset t) (omega arith)
      ∙ get_elem-drop offset (i - offset) i t (omega arith)

  before-Agrees :
      (i : ℕ)
      → offset ≤ length buffer
      → i < offset
      → Agrees t buffer i
      → Agrees t (write_at buffer offset fragment) i
  unfolding write_at
  before-Agrees i l h a =
      get_elem-append_left (take offset buffer) _ i (omega (arith, length-take offset buffer))
      ∙ get_elem-take offset i buffer h
      ∙ a

  behind-Agrees :
      (i : ℕ)
      → offset + length fragment ≤ length buffer
      → offset + length fragment ≤ i
      → Agrees t buffer i
      → Agrees t (write_at buffer offset fragment) i
  unfolding write_at
  behind-Agrees i l h a =
      get_elem-append_right (take offset buffer) _ i (i - offset)
        (omega (arith, length-take offset buffer))
      ∙ get_elem-append_right fragment _ (i - offset) (i - (offset + length fragment)) (omega arith)
      ∙ get_elem-drop (offset + length fragment) (i - (offset + length fragment)) i buffer
          (omega arith)
      ∙ a

  within→le : (i : ℕ) → is_within i offset fragment ≡ true → offset ≤ i
  within→le i h = ground (arith, h)

  within→lt : (i : ℕ) → is_within i offset fragment ≡ true → i < offset + length fragment
  within→lt i h = ground (arith, h)

  -- The copy of a piece makes the buffer agree where the piece stands, and leaves it in agreement
  -- elsewhere.
  pub write_at-Agrees :
      IsPiece t offset fragment
      → length buffer ≡ length t
      → (i : ℕ)
      → ((is_within i offset fragment ≡ true → Agrees t (write_at buffer offset fragment) i)
          × (Agrees t buffer i → Agrees t (write_at buffer offset fragment) i))
  write_at-Agrees p l i = (
    λ w. inside-Agrees i p l (within→le i w) (within→lt i w),
    λ a. elim (le_or_lt offset i) [
      | inl from ↦ elim (le_or_lt (offset + length fragment) i) [
        | inl over ↦ behind-Agrees i (omega (arith, p.inside)) over a
        | inr inside ↦ inside-Agrees i p l from inside
      ]
      | inr below ↦ before-Agrees i (omega (arith, p.inside)) below a
    ],
  )

-- A copy changes nothing outside of its range.
pub write_at-other :
    (buffer : Buffer) (offset : ℕ) (fragment : Text) (i : ℕ)
    → offset + length fragment ≤ length buffer
    → is_within i offset fragment ≡ false
    → get_elem? (write_at buffer offset fragment) i ≡ get_elem? buffer i
write_at-other buffer offset fragment i l h = elim (le_or_lt offset i) [
  | inl from ↦ elim (le_or_lt (offset + length fragment) i) [
    | inl over ↦ behind-Agrees buffer buffer offset fragment i l over refl
    | inr inside ↦ absurd (ground (arith, h, from, inside))
  ]
  | inr below ↦ before-Agrees buffer buffer offset fragment i (omega arith) below refl
]
