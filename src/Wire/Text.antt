-- ===== src/Wire/Text.antt =====
-- Packable.h, the overloads for `std::string`, a list of bytes here, and for `uuid`, which goes over
-- the wire as its text. `boost::uuids::to_string` and `string_generator` are parameters.
use libre_connect.Base.{
  ℕ, suc, ◌+◌, ◌≤◌, ◌<◌, ◌≡◌, ◌≢◌, refl, sym, ◌∙◌, Bool, true, false, List, [], ◌∷◌, ◌++◌,
  append_assoc, length, drop, length-append, ◌==◌, if◌then◌else◌, arith, throw_if, Result, ok, err,
  ◌>>=◌, ◌>>◌, serialize_out_of_bounds, string_out_of_bounds, >>=-eq-ok, inl, inr, le_or_lt,
}
use libre_connect.Wire.Buffer.{
  Buffer, write_at, read_at, read_at_lem, lacks_space, ensure_serialize_space, lacks_space-false,
  lacks_space-true, write_at-write_at, write_at-nil,
}
use libre_connect.Wire.Codec.{
  Codec, IsLawful, length_written, drop_behind, le_behind, writes_then, refuses_then, reads_then,
  ok_path,
}
use libre_connect.Wire.Primitive.{
  primitive, primitive-IsLawful, big_endian, length-big_endian, FitsIn,
}

-- `size_t` is eight bytes on every platform the program is built for.
abbrev pub size_t : Codec ℕ
size_t = primitive 8

pub size_t-IsLawful : IsLawful size_t (big_endian 8) (FitsIn 8)
size_t-IsLawful = primitive-IsLawful 8 (omega arith)

abbrev pub is_empty {ℓ} : {A : Type ℓ} → List A → Bool
is_empty [] = true
is_empty (x ∷ xs) = false

abbrev pub Text : Type 0
Text = List ℕ

-- A `std::string` shorter than 2 ^ 64.
abbrev pub TextFits : Text → Type 0
TextFits s = FitsIn 8 (length s)

unfoldable pub serialize_body : Text → Buffer → ℕ → Result (Buffer × ℕ)
serialize_body object buffer offset = if is_empty object then ok (buffer, offset) else do
  ensure_serialize_space buffer offset (length object)
  ok (write_at buffer offset object, offset + length object)

unfoldable pub serialize_text : Text → Buffer → ℕ → Result (Buffer × ℕ)
serialize_text object buffer offset = do
  (buffer', offset') ← size_t.serialize (length object) buffer offset
  serialize_body object buffer' offset'

unfoldable pub deserialize_body : ℕ → Buffer → ℕ → Result (Text × ℕ)
deserialize_body size buffer offset = if size == 0 then ok ([], offset) else do
  throw_if (lacks_space buffer offset size) string_out_of_bounds
  ok (read_at buffer offset size, offset + size)

unfoldable pub deserialize_text : Buffer → ℕ → Result (Text × ℕ)
deserialize_text buffer offset = do
  (size, offset') ← size_t.deserialize buffer offset
  deserialize_body size buffer offset'

unfoldable pub text : Codec Text
text = record {
  serialize = serialize_text;
  deserialize = deserialize_text;
  size = λ object. 8 + length object;
}

unfoldable pub encode_text : Text → List ℕ
encode_text s = big_endian 8 (length s) ++ s

serialize_body_ok :
    (s : Text) (buffer : Buffer) (offset : ℕ)
    → offset + length s ≤ length buffer
    → serialize_body s buffer offset ≡ ok (write_at buffer offset s, offset + length s)
unfolding serialize_body ensure_serialize_space
serialize_body_ok [] buffer offset h = ok_path (sym (write_at-nil buffer offset)) (omega arith)
serialize_body_ok (b ∷ s) buffer offset h = rw (lacks_space-false buffer offset (suc (length s)) h)

serialize_body_err :
    (s : Text) (buffer : Buffer) (offset : ℕ)
    → offset ≤ length buffer
    → length buffer < offset + length s
    → serialize_body s buffer offset ≡ err serialize_out_of_bounds
unfolding serialize_body ensure_serialize_space
serialize_body_err [] buffer offset h k = absurd (omega arith)
serialize_body_err (b ∷ s) buffer offset h k =
    rw (lacks_space-true buffer offset (suc (length s)) k)

writes :
    (s : Text) (buffer : Buffer) (offset : ℕ)
    → offset + (8 + length s) ≤ length buffer
    → serialize_text s buffer offset
      ≡ ok (write_at buffer offset (encode_text s), offset + (8 + length s))
unfolding serialize_text encode_text primitive
writes s buffer offset h =
    writes_then size_t-IsLawful (length s) buffer offset _ (omega arith)
    ∙ serialize_body_ok s _ (offset + 8)
        (omega (arith, length_written size_t-IsLawful (length s) buffer offset))
    ∙ ok_path
        (write_at-write_at buffer offset (offset + 8) _ s
          (omega (arith, length-big_endian 8 (length s))) (omega arith))
        (omega arith)

refuses :
    (s : Text) (buffer : Buffer) (offset : ℕ)
    → length buffer < offset + (8 + length s)
    → serialize_text s buffer offset ≡ err serialize_out_of_bounds
unfolding serialize_text primitive
refuses s buffer offset h = elim (le_or_lt (offset + 8) (length buffer)) [
  | inl enough ↦
      writes_then size_t-IsLawful (length s) buffer offset _ enough
      ∙ serialize_body_err s _ (offset + 8)
          (omega (arith, length_written size_t-IsLawful (length s) buffer offset enough))
          (omega (arith, length_written size_t-IsLawful (length s) buffer offset enough))
  | inr short ↦ refuses_then size_t-IsLawful (length s) buffer offset _ short
]

deserialize_body_pos :
    (size : ℕ) (buffer : Buffer) (offset : ℕ)
    → size ≢ 0
    → offset + size ≤ length buffer
    → deserialize_body size buffer offset ≡ ok (read_at buffer offset size, offset + size)
unfolding deserialize_body
deserialize_body_pos size buffer offset h k = ground arith

deserialize_body_ok :
    (s : Text) (buffer : Buffer) (offset : ℕ) (post : List ℕ)
    → offset ≤ length buffer
    → drop offset buffer ≡ s ++ post
    → deserialize_body (length s) buffer offset ≡ ok (s, offset + length s)
unfolding deserialize_body
deserialize_body_ok [] buffer offset post h e = ok_path refl (omega arith)
deserialize_body_ok (b ∷ s) buffer offset post h e =
    deserialize_body_pos (suc (length s)) buffer offset (omega arith)
      (le_behind buffer offset (suc (length s)) (b ∷ s) post h e refl)
    ∙ ok_path (read_at_lem buffer offset (suc (length s)) (b ∷ s) post e refl) refl

reads :
    (s : Text) (buffer : Buffer) (offset : ℕ) (post : List ℕ)
    → TextFits s
    → offset ≤ length buffer
    → drop offset buffer ≡ encode_text s ++ post
    → deserialize_text buffer offset ≡ ok (s, offset + (8 + length s))
unfolding deserialize_text encode_text primitive
reads s buffer offset post f h e =
    let e' : drop offset buffer ≡ big_endian 8 (length s) ++ (s ++ post) =
      e ∙ append_assoc _ s post in
    reads_then size_t-IsLawful (length s) buffer offset (s ++ post) _ f h e'
    ∙ deserialize_body_ok s buffer (offset + 8) post
        (le_behind buffer offset 8 _ _ h e' (length-big_endian 8 (length s)))
        (drop_behind buffer offset 8 (offset + 8) _ _ e' (length-big_endian 8 (length s)) refl)
    ∙ ok_path refl (omega arith)

deserialize_body_bounds :
    (size : ℕ) (buffer : Buffer) (offset : ℕ) (s : Text) (offset' : ℕ)
    → offset ≤ length buffer
    → deserialize_body size buffer offset ≡ ok (s, offset')
    → (offset ≤ offset') × (offset' ≤ length buffer)
unfolding deserialize_body
deserialize_body_bounds size buffer offset s offset' k h = ground arith

in_bounds :
    (buffer : Buffer) (offset : ℕ) (s : Text) (offset' : ℕ)
    → deserialize_text buffer offset ≡ ok (s, offset')
    → (offset ≤ offset') × (offset' ≤ length buffer)
unfolding deserialize_text
in_bounds buffer offset s offset' h =
    let ((size, k), first, rest) = >>=-eq-ok (size_t.deserialize buffer offset) _ h in
    let b = size_t-IsLawful.in_bounds buffer offset size k first in
    let b' = deserialize_body_bounds size buffer k s offset' b.1 rest in (omega arith, b'.1)

pub text-IsLawful : IsLawful text encode_text TextFits
unfolding text
text-IsLawful = record {
  length-encode = λ s.
      unfold encode_text in
      omega (arith, length-append (big_endian 8 (length s)) s, length-big_endian 8 (length s));
  size_pos = λ s. omega arith;
  writes = writes;
  refuses = refuses;
  reads = reads;
  in_bounds = in_bounds;
}
