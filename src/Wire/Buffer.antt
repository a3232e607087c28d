-- ===== src/Wire/Buffer.antt =====
-- The `std::vector<uint8_t>` of Packable.h, its bounds check and its two uses of `memcpy`.
use libre_connect.Base.{
  ℕ, ◌+◌, ◌-◌, ◌≤◌, ◌<◌, ◌≡◌, refl, sym, ap, ◌∙◌, Bool, true, false, ◌||◌, List, ◌++◌, append_assoc,
  length, take, drop, length-append, length-take, length-drop, take-append, drop-append, drop-drop,
  drop_all, take-append-drop, [], append-nil, ltb, arith, throw_if, Result, serialize_out_of_bounds,
}

abbrev pub Buffer : Type 0
Buffer = List ℕ

-- `offset > buffer.size() || required > buffer.size() - offset`
abbrev pub lacks_space : Buffer → ℕ → ℕ → Bool
lacks_space buffer offset required =
    ltb (length buffer) offset || ltb (length buffer - offset) required

unfoldable pub ensure_serialize_space : Buffer → ℕ → ℕ → Result (Unit {0})
ensure_serialize_space buffer offset required =
    throw_if (lacks_space buffer offset required) serialize_out_of_bounds

-- `memcpy(&buffer[offset], bytes, n)`
unfoldable pub write_at : Buffer → ℕ → List ℕ → Buffer
write_at buffer offset bytes = take offset buffer ++ (bytes ++ drop (offset + length bytes) buffer)

-- `memcpy(object, &buffer[offset], n)`
abbrev pub read_at : Buffer → ℕ → ℕ → List ℕ
read_at buffer offset n = take n (drop offset buffer)

pub lacks_space-false :
    (buffer : Buffer) (offset required : ℕ)
    → offset + required ≤ length buffer
    → lacks_space buffer offset required ≡ false
lacks_space-false buffer offset required h = ground arith

pub lacks_space-true :
    (buffer : Buffer) (offset required : ℕ)
    → length buffer < offset + required
    → lacks_space buffer offset required ≡ true
lacks_space-true buffer offset required h = ground arith

pub lacks_space→le :
    (buffer : Buffer) (offset required : ℕ)
    → lacks_space buffer offset required ≡ false
    → offset + required ≤ length buffer
lacks_space→le buffer offset required h = ground arith

module _ (buffer : Buffer) (offset : ℕ) where
  pub length-write_at :
      (bytes : List ℕ)
      → offset + length bytes ≤ length buffer
      → length (write_at buffer offset bytes) ≡ length buffer
  unfolding write_at
  length-write_at bytes h = omega (
    arith,
    length-append (take offset buffer) (bytes ++ drop (offset + length bytes) buffer),
    length-append bytes (drop (offset + length bytes) buffer),
    length-take offset buffer,
    length-drop (offset + length bytes) buffer,
  )

  length-take_le : offset ≤ length buffer → length (take offset buffer) ≡ offset
  length-take_le h = omega (arith, length-take offset buffer)

  -- What is read behind the offset after a write.
  pub drop-write_at :
      (bytes : List ℕ)
      → offset + length bytes ≤ length buffer
      → drop offset (write_at buffer offset bytes) ≡ bytes ++ drop (offset + length bytes) buffer
  unfolding write_at
  drop-write_at bytes h = drop-append offset (take offset buffer) _ (length-take_le (omega arith))

  pub take-write_at :
      (bytes : List ℕ) (k : ℕ)
      → offset + length bytes ≤ length buffer
      → offset + length bytes ≡ k
      → take k (write_at buffer offset bytes) ≡ take offset buffer ++ bytes
  unfolding write_at
  take-write_at bytes k h e =
      ap (take k) (sym (append_assoc (take offset buffer) bytes _))
      ∙ take-append k (take offset buffer ++ bytes) _
          (omega (arith, length-append (take offset buffer) bytes, length-take_le (omega arith)))

  pub drop_behind-write_at :
      (bytes : List ℕ) (k : ℕ)
      → offset + length bytes ≤ k
      → k ≤ length buffer
      → drop k (write_at buffer offset bytes) ≡ drop k buffer
  unfolding write_at
  drop_behind-write_at bytes k h g =
      ap (drop k) (sym (append_assoc (take offset buffer) bytes _))
      ∙ sym (drop-drop (offset + length bytes) (k - (offset + length bytes)) k _ (omega arith))
      ∙ ap (drop (k - (offset + length bytes))) (
          drop-append (offset + length bytes) (take offset buffer ++ bytes) _
            (omega (arith, length-append (take offset buffer) bytes, length-take_le (omega arith))))
      ∙ drop-drop (offset + length bytes) (k - (offset + length bytes)) k buffer (omega arith)

pub take_before-write_at :
    (buffer : Buffer) (offset : ℕ) (bytes : List ℕ)
    → offset + length bytes ≤ length buffer
    → take offset (write_at buffer offset bytes) ≡ take offset buffer
unfolding write_at
take_before-write_at buffer offset bytes h =
    take-append offset (take offset buffer) _ (omega (arith, length-take offset buffer))

write_at_lem :
    (buffer : Buffer) (offset k : ℕ) (bytes : List ℕ)
    → offset + length bytes ≡ k
    → write_at buffer offset bytes ≡ take offset buffer ++ (bytes ++ drop k buffer)
unfolding write_at
write_at_lem buffer offset k bytes e =
    ap (λ (i : ℕ). take offset buffer ++ (bytes ++ drop i buffer)) e

-- Two writes one behind the other are one write.
pub write_at-write_at :
    (buffer : Buffer) (offset k : ℕ) (first second : List ℕ)
    → offset + length first ≡ k
    → k + length second ≤ length buffer
    → write_at (write_at buffer offset first) k second ≡ write_at buffer offset (first ++ second)
write_at-write_at buffer offset k first second e h =
    write_at_lem _ k (k + length second) second refl
    ∙ rw
        (
          take-write_at buffer offset first k (omega arith) e,
          drop_behind-write_at buffer offset first (k + length second) (omega arith) h,
        )
        (rw
          (write_at_lem buffer offset (k + length second) (first ++ second)
            (omega (arith, length-append first second)))
          (simp append_assoc))

pub write_at_all :
    (buffer bytes : Buffer) → length bytes ≡ length buffer → write_at buffer 0 bytes ≡ bytes
unfolding write_at
write_at_all buffer bytes h =
    rw (drop_all (0 + length bytes) buffer (omega arith)) (append-nil bytes)

pub write_at-nil : (buffer : Buffer) (offset : ℕ) → write_at buffer offset [] ≡ buffer
unfolding write_at
write_at-nil buffer offset =
    let e : offset + 0 ≡ offset = omega arith in rw e (take-append-drop offset buffer)

pub read_at_lem :
    (buffer : Buffer) (offset n : ℕ) (bytes post : List ℕ)
    → drop offset buffer ≡ bytes ++ post
    → length bytes ≡ n
    → read_at buffer offset n ≡ bytes
read_at_lem buffer offset n bytes post h e = ap (take n) h ∙ take-append n bytes post e

-- Two pieces, the second of which is replaced from its start on.
pub write_at_second :
    (before second bytes : List ℕ) (position : ℕ)
    → length before ≡ position
    → write_at (before ++ second) position bytes ≡ before ++ (bytes ++ drop (length bytes) second)
unfolding write_at
write_at_second before second bytes position h =
    ap (λ (l : List ℕ). l ++ (bytes ++ drop (position + length bytes) (before ++ second)))
      (take-append position before second h)
    ∙ ap (λ (l : List ℕ). before ++ (bytes ++ l))
        (sym (drop-drop position (length bytes) (position + length bytes) (before ++ second) refl)
          ∙ ap (drop (length bytes)) (drop-append position before second h))
