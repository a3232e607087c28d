-- ===== src/Wire/Vector.antt =====
-- Packable.h, the overloads for `std::vector`: the count, then the elements. Reading checks the count
-- against the bytes left, in one way for primitives and in another for all else.

pub mod Laws
use libre_connect.Base.{
  ℕ, zero, suc, ◌+◌, ◌-◌, ◌/◌, ◌≤◌, ◌<◌, ◌≡◌, refl, sym, ◌∙◌, ◌||◌, List, [], ◌∷◌, ◌++◌,
  append_assoc, length, drop, length-append, ltb, arith, throw_if, Result, ok, err, All, ◌>>=◌,
  ◌>>◌, serialize_out_of_bounds, vector_out_of_bounds, vector_exceeds_payload, >>=-eq-ok, inl, inr,
  le_or_lt,
}
use libre_connect.Wire.Buffer.{Buffer, write_at, write_at-write_at, write_at-nil}
use libre_connect.Wire.Codec.{
  Codec, IsLawful, length_written, drop_behind, le_behind, writes_then, refuses_then, reads_then,
  ok_path,
}
use libre_connect.Wire.Primitive.{primitive, big_endian, length-big_endian, FitsIn}
use libre_connect.Wire.Text.{size_t, size_t-IsLawful}

module _ {A : Type 0} (c : Codec A) where
  unfoldable pub serialize_all : List A → Buffer → ℕ → Result (Buffer × ℕ)
  serialize_all [] buffer offset = ok (buffer, offset)
  serialize_all (x ∷ xs) buffer offset = do
    (buffer', offset') ← c.serialize x buffer offset
    serialize_all xs buffer' offset'

  unfoldable pub deserialize_all : ℕ → Buffer → ℕ → Result (List A × ℕ)
  deserialize_all zero buffer offset = ok ([], offset)
  deserialize_all (suc n) buffer offset = do
    (x, offset') ← c.deserialize buffer offset
    (xs, offset'') ← deserialize_all n buffer offset'
    ok (x ∷ xs, offset'')

  unfoldable pub all_size : List A → ℕ
  all_size [] = 0
  all_size (x ∷ xs) = c.size x + all_size xs

  unfoldable pub serialize_vector : List A → Buffer → ℕ → Result (Buffer × ℕ)
  serialize_vector object buffer offset = do
    (buffer', offset') ← size_t.serialize (length object) buffer offset
    serialize_all object buffer' offset'

  unfoldable pub deserialize_vector : Buffer → ℕ → Result (List A × ℕ)
  deserialize_vector buffer offset = do
    (size, offset') ← size_t.deserialize buffer offset
    throw_if (ltb (length buffer) offset') vector_out_of_bounds
    throw_if (ltb (length buffer - offset') size) vector_exceeds_payload
    deserialize_all size buffer offset'

  unfoldable pub vector : Codec (List A)
  vector = record {
    serialize = serialize_vector;
    deserialize = deserialize_vector;
    size = λ object. 8 + all_size object;
  }

-- `template <Primitive T> DeserializeObject(std::vector<T>&, …)`
module _ (width : ℕ) where
  unfoldable pub deserialize_primitives : Buffer → ℕ → Result (List ℕ × ℕ)
  deserialize_primitives buffer offset = do
    (size, offset') ← size_t.deserialize buffer offset
    throw_if (ltb (length buffer) offset' || ltb ((length buffer - offset') / width) size)
        vector_out_of_bounds
    deserialize_all (primitive width) size buffer offset'

  unfoldable pub primitive_vector : Codec (List ℕ)
  primitive_vector = record {
    serialize = serialize_vector (primitive width);
    deserialize = deserialize_primitives;
    size = λ object. 8 + all_size (primitive width) object;
  }

abbrev pub encode_all : {A : Type 0} → (A → List ℕ) → List A → List ℕ
encode_all e [] = []
encode_all e (x ∷ xs) = e x ++ encode_all e xs

abbrev pub encode_vector : {A : Type 0} → (A → List ℕ) → List A → List ℕ
encode_vector e xs = big_endian 8 (length xs) ++ encode_all e xs

abbrev pub VectorFits : {A : Type 0} → (A → Type 0) → List A → Type 0
VectorFits F xs = FitsIn 8 (length xs) × All F xs

module _ {A : Type 0} {c : Codec A} {e : A → List ℕ} {F : A → Type 0} (l : IsLawful c e F) where
  pub length-encode_all : (xs : List A) → length (encode_all e xs) ≡ all_size c xs
  unfolding all_size
  length-encode_all [] = refl
  length-encode_all (x ∷ xs) =
      omega (arith, length-append (e x) (encode_all e xs), l.length-encode x, length-encode_all xs)

  pub serialize_all_ok :
      (xs : List A) (buffer : Buffer) (offset : ℕ)
      → offset + all_size c xs ≤ length buffer
      → serialize_all c xs buffer offset
        ≡ ok (write_at buffer offset (encode_all e xs), offset + all_size c xs)
  unfolding serialize_all all_size
  serialize_all_ok [] buffer offset h = ok_path (sym (write_at-nil buffer offset)) (omega arith)
  serialize_all_ok (x ∷ xs) buffer offset h =
      writes_then l x buffer offset _ (omega arith)
      ∙ serialize_all_ok xs _ (offset + c.size x) (omega (arith, length_written l x buffer offset))
      ∙ ok_path
          (write_at-write_at buffer offset (offset + c.size x) (e x) (encode_all e xs)
            (omega (arith, l.length-encode x)) (omega (arith, length-encode_all xs)))
          (omega arith)

  pub serialize_all_err :
      (xs : List A) (buffer : Buffer) (offset : ℕ)
      → offset ≤ length buffer
      → length buffer < offset + all_size c xs
      → serialize_all c xs buffer offset ≡ err serialize_out_of_bounds
  unfolding serialize_all all_size
  serialize_all_err [] buffer offset k h = absurd (omega arith)
  serialize_all_err (x ∷ xs) buffer offset k h =
      elim (le_or_lt (offset + c.size x) (length buffer)) [
        | inl enough ↦
            writes_then l x buffer offset _ enough
            ∙ serialize_all_err xs _ (offset + c.size x)
                (omega (arith, length_written l x buffer offset enough))
                (omega (arith, length_written l x buffer offset enough))
        | inr short ↦ refuses_then l x buffer offset _ short
      ]

  pub deserialize_all_ok :
      (xs : List A) (buffer : Buffer) (offset : ℕ) (post : List ℕ)
      → All F xs
      → offset ≤ length buffer
      → drop offset buffer ≡ encode_all e xs ++ post
      → deserialize_all c (length xs) buffer offset ≡ ok (xs, offset + all_size c xs)
  unfolding deserialize_all all_size
  deserialize_all_ok [] buffer offset post f h g = ok_path refl (omega arith)
  deserialize_all_ok (x ∷ xs) buffer offset post f h g =
      let g' : drop offset buffer ≡ e x ++ (encode_all e xs ++ post) =
        g ∙ append_assoc (e x) (encode_all e xs) post in
      reads_then l x buffer offset (encode_all e xs ++ post) _ f.0 h g'
      ∙ rw
          (deserialize_all_ok xs buffer (offset + c.size x) post f.1
            (le_behind buffer offset (c.size x) (e x) _ h g' (l.length-encode x))
            (drop_behind buffer offset (c.size x) (offset + c.size x) (e x) _ g' (l.length-encode x)
              refl))
          (ok_path refl (omega arith))

  pub deserialize_all_bounds :
      (n : ℕ) (buffer : Buffer) (offset : ℕ) (xs : List A) (offset' : ℕ)
      → offset ≤ length buffer
      → deserialize_all c n buffer offset ≡ ok (xs, offset')
      → (offset ≤ offset') × (offset' ≤ length buffer)
  unfolding deserialize_all
  deserialize_all_bounds zero buffer offset xs offset' k h =
      let z : offset ≡ offset' = cc h in (omega arith, omega arith)
  deserialize_all_bounds (suc n) buffer offset xs offset' k h =
      let ((x, i), first, rest) = >>=-eq-ok (c.deserialize buffer offset) _ h in
      let ((ys, j), second, last) = >>=-eq-ok (deserialize_all c n buffer i) _ rest in
      let p = l.in_bounds buffer offset x i first in
      let q = deserialize_all_bounds n buffer i ys j p.1 second in
      let z : j ≡ offset' = cc last in (omega arith, omega arith)

  pub length-le-all_size : (xs : List A) → length xs ≤ all_size c xs
  unfolding all_size
  length-le-all_size [] = omega arith
  length-le-all_size (x ∷ xs) = omega (arith, l.size_pos x, length-le-all_size xs)

  pub vector_writes :
      (xs : List A) (buffer : Buffer) (offset : ℕ)
      → offset + (8 + all_size c xs) ≤ length buffer
      → serialize_vector c xs buffer offset
        ≡ ok (write_at buffer offset (encode_vector e xs), offset + (8 + all_size c xs))
  unfolding serialize_vector primitive
  vector_writes xs buffer offset h =
      writes_then size_t-IsLawful (length xs) buffer offset _ (omega arith)
      ∙ serialize_all_ok xs _ (offset + 8)
          (omega (arith, length_written size_t-IsLawful (length xs) buffer offset))
      ∙ ok_path
          (write_at-write_at buffer offset (offset + 8) _ (encode_all e xs)
            (omega (arith, length-big_endian 8 (length xs))) (omega (arith, length-encode_all xs)))
          (omega arith)

  pub vector_refuses :
      (xs : List A) (buffer : Buffer) (offset : ℕ)
      → length buffer < offset + (8 + all_size c xs)
      → serialize_vector c xs buffer offset ≡ err serialize_out_of_bounds
  unfolding serialize_vector primitive
  vector_refuses xs buffer offset h = elim (le_or_lt (offset + 8) (length buffer)) [
    | inl enough ↦
        writes_then size_t-IsLawful (length xs) buffer offset _ enough
        ∙ serialize_all_err xs _ (offset + 8)
            (omega (arith, length_written size_t-IsLawful (length xs) buffer offset enough))
            (omega (arith, length_written size_t-IsLawful (length xs) buffer offset enough))
    | inr short ↦ refuses_then size_t-IsLawful (length xs) buffer offset _ short
  ]
