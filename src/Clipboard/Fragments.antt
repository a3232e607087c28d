-- ===== src/Clipboard/Fragments.antt =====
-- A large text cut into fragments: their number, and which bytes they bring.
use native.Mathlib.Nat.{div-eq_of_lt, div-eq-sub-div}
use libre_connect.Base.{
  ℕ, zero, suc, ◌+◌, ◌-◌, ◌/◌, ◌≤◌, ◌<◌, ◌≡◌, refl, sym, ap, ◌∙◌, Bool, true, false, ◌||◌, List, [],
  ◌∷◌, ◌++◌, length, take, drop, replicate, length-append, length-take, length-drop,
  length-replicate, min, arith, le→ltb, lt→ltb, le_or_lt, inl, inr, All, subst,
}
use libre_connect.Wire.Buffer.{Buffer}
use libre_connect.Wire.Text.{Text}
use mathlib.Core.List.{Permᴰ}
use libre_connect.Clipboard.Positions.{IsPiece, is_within}
use libre_connect.Clipboard.{
  Message, fragmented_clipboard_update, send_fragments, fragment_count, resize,
}

fragment_count-zero : (n m : ℕ) → n ≡ 0 → 1 ≤ m → fragment_count n m ≡ 0
fragment_count-zero n m e h = div-eq_of_lt (omega arith)

fragment_count-step :
    (n m : ℕ) → 1 ≤ n → 1 ≤ m → fragment_count n m ≡ suc (fragment_count (n - min n m) m)
fragment_count-step n m h k = elim (le_or_lt n m) [
  | inl last ↦
      div-eq-sub-div (omega arith) (omega arith)
      ∙ omega (
        arith,
        fragment_count-zero (n - min n m) m (omega arith) k,
        div-eq_of_lt {n = n + (m - 1) - m} {m = m} (omega arith),
      )
  | inr full ↦
      let e : n + (m - 1) - m ≡ n - min n m + (m - 1) = omega arith in
      div-eq-sub-div (omega arith) (omega arith) ∙ omega (arith, ap (λ (i : ℕ). i / m) e)
]

-- As many fragments are sent as `UPDATE_INFO_REQUEST` announces.
pub length-send_fragments :
    (fuel m : ℕ) (t : Text) (offset : ℕ)
    → 1 ≤ m
    → length t - offset ≤ fuel
    → length (send_fragments fuel m t offset) ≡ fragment_count (length t - offset) m
unfolding send_fragments
length-send_fragments zero m t offset k h =
    sym (fragment_count-zero (length t - offset) m (omega arith) k)
length-send_fragments (suc fuel) m t offset k h = elim (le_or_lt (length t) offset) [
  | inl over ↦
      rw (le→ltb offset (length t) over)
        (sym (fragment_count-zero (length t - offset) m (omega arith) k))
  | inr inside ↦ rw (lt→ltb offset (length t) inside) (
      ap suc (
        length-send_fragments fuel m t (offset + min (length t - offset) m) k (omega arith)
        ∙ ap (λ (i : ℕ). fragment_count i m) (omega arith))
      ∙ sym (fragment_count-step (length t - offset) m (omega arith) k))
]

pub length-send_fragments_le :
    (fuel m : ℕ) (t : Text) (offset : ℕ) → length (send_fragments fuel m t offset) ≤ fuel
unfolding send_fragments
length-send_fragments_le zero m t offset = omega arith
length-send_fragments_le (suc fuel) m t offset = elim (le_or_lt (length t) offset) [
  | inl over ↦ rw (le→ltb offset (length t) over) (omega arith)
  | inr inside ↦
      rw (lt→ltb offset (length t) inside)
        (omega (arith, length-send_fragments_le fuel m t (offset + min (length t - offset) m)))
]

pub length-resize : (size : ℕ) (buffer : Buffer) → length (resize size buffer) ≡ size
unfolding resize
length-resize size buffer = omega (
  arith,
  length-append (take size buffer) (replicate (size - length buffer) 0),
  length-take size buffer,
  length-replicate {A = ℕ} (size - length buffer) 0,
)

fragment_of : ℕ → Text → ℕ → Text
fragment_of m t offset = take (min (length t - offset) m) (drop offset t)

length-fragment_of :
    (m : ℕ) (t : Text) (offset : ℕ) → length (fragment_of m t offset) ≡ min (length t - offset) m
unfolding fragment_of
length-fragment_of m t offset =
    omega (arith, length-take (min (length t - offset) m) (drop offset t), length-drop offset t)

send_fragments_more :
    (fuel m : ℕ) (t : Text) (offset : ℕ)
    → offset < length t
    → send_fragments (suc fuel) m t offset
      ≡ fragmented_clipboard_update offset (fragment_of m t offset)
        ∷ send_fragments fuel m t (offset + min (length t - offset) m)
unfolding send_fragments fragment_of
send_fragments_more fuel m t offset h = rw (lt→ltb offset (length t) h)

abbrev pub IsFragment : Text → Message → Type 0
IsFragment t (fragmented_clipboard_update offset fragment) = IsPiece t offset fragment
IsFragment t _ = Unit

abbrev pub has_position : ℕ → Message → Bool
has_position i (fragmented_clipboard_update offset fragment) = is_within i offset fragment
has_position i _ = false

-- Whether some fragment brings the byte of that position.
abbrev pub covers : ℕ → List Message → Bool
covers i [] = false
covers i (m ∷ ms) = has_position i m || covers i ms

pub covers-append :
    (i : ℕ) (ms ns : List Message) → covers i (ms ++ ns) ≡ covers i ms || covers i ns
covers-append i [] ns = refl
covers-append i (m ∷ ms) ns =
    ap (λ (b : Bool). has_position i m || b) (covers-append i ms ns) ∙ or_assoc (has_position i m)
  where
    or_assoc :
        (b : Bool) → (b || (covers i ms || covers i ns)) ≡ ((b || covers i ms) || covers i ns)
    or_assoc true = refl
    or_assoc false = refl

swap_or : (a b c : Bool) → (a || (b || c)) ≡ (b || (a || c))
swap_or true true c = refl
swap_or true false c = refl
swap_or false b c = refl

-- The order does not matter.
pub covers-Perm : (i : ℕ) (ms ns : List Message) → Permᴰ ms ns → covers i ms ≡ covers i ns
covers-Perm i _ _ Permᴰ.nil = refl
covers-Perm i _ _ (Permᴰ.cons {a} {b} {l₁} {l₂} e d) =
    let rest = covers-Perm i l₁ l₂ d in λ k. has_position i (e k) || rest k
covers-Perm i _ _ (Permᴰ.swap {a} {b} {a'} {b'} {l} e f) =
    swap_or (has_position i a) (has_position i b) (covers i l)
    ∙ (λ k. has_position i (f k) || (has_position i (e k) || covers i l))
covers-Perm i _ _ (Permᴰ.trans {l₁} {l₂} {l₃} d d') = covers-Perm i l₁ l₂ d ∙ covers-Perm i l₂ l₃ d'

pub All-Perm : (P : Message → Type 0) (ms ns : List Message) → Permᴰ ms ns → All P ns → All P ms
All-Perm P _ _ Permᴰ.nil h = tt
All-Perm P _ _ (Permᴰ.cons {a} {b} {l₁} {l₂} e d) h = (subst P (sym e) h.0, All-Perm P l₁ l₂ d h.1)
All-Perm P _ _ (Permᴰ.swap {a} {b} {a'} {b'} {l} e f) h =
    (subst P (sym e) h.1.0, (subst P (sym f) h.0, h.1.1))
All-Perm P _ _ (Permᴰ.trans {l₁} {l₂} {l₃} d d') h = All-Perm P l₁ l₂ d (All-Perm P l₂ l₃ d' h)

pub All-halves :
    (P : Message → Type 0) (ms ns : List Message) → All P (ms ++ ns) → All P ms × All P ns
All-halves P [] ns h = (tt, h)
All-halves P (m ∷ ms) ns h = let (a, b) = All-halves P ms ns h.1 in ((h.0, a), b)

fragment_of-IsPiece :
    (m : ℕ) (t : Text) (offset : ℕ) → offset < length t → IsPiece t offset (fragment_of m t offset)
fragment_of-IsPiece m t offset h = record {
  part =
      unfold fragment_of in
      ap (λ (i : ℕ). take i (drop offset t)) (sym (length-fragment_of m t offset));
  inside = omega (arith, length-fragment_of m t offset);
}

-- What is sent are pieces of the text.
pub send_fragments-IsFragment :
    (fuel m : ℕ) (t : Text) (offset : ℕ) → All (IsFragment t) (send_fragments fuel m t offset)
unfolding send_fragments
send_fragments-IsFragment zero m t offset = tt
send_fragments-IsFragment (suc fuel) m t offset = elim (le_or_lt (length t) offset) [
  | inl over ↦ rw (le→ltb offset (length t) over) tt
  | inr inside ↦ subst (All (IsFragment t)) (sym (send_fragments_more fuel m t offset inside)) (
    fragment_of-IsPiece m t offset inside,
    send_fragments-IsFragment fuel m t (offset + min (length t - offset) m),
  )
]

or_right : (a b : Bool) → b ≡ true → (a || b) ≡ true
or_right true b h = refl
or_right false b h = h

within :
    (m : ℕ) (t : Text) (offset i : ℕ)
    → offset ≤ i
    → i < offset + min (length t - offset) m
    → is_within i offset (fragment_of m t offset) ≡ true
within m t offset i h k = ground (arith, h, k, length-fragment_of m t offset)

-- And they bring every byte behind the offset.
pub send_fragments-covers :
    (fuel m : ℕ) (t : Text) (offset i : ℕ)
    → 1 ≤ m
    → length t - offset ≤ fuel
    → offset ≤ i
    → i < length t
    → covers i (send_fragments fuel m t offset) ≡ true
send_fragments-covers zero m t offset i k h from inside = absurd (omega arith)
send_fragments-covers (suc fuel) m t offset i k h from inside =
    let n : ℕ = min (length t - offset) m in
    ap (covers i) (send_fragments_more fuel m t offset (omega arith))
    ∙ elim (le_or_lt (offset + n) i) [
      | inl over ↦
          or_right (is_within i offset (fragment_of m t offset)) _
            (send_fragments-covers fuel m t (offset + n) i k (omega arith) over inside)
      | inr below ↦
          ap (λ (b : Bool). b || covers i (send_fragments fuel m t (offset + n)))
            (within m t offset i from below)
    ]
