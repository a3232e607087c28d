-- ===== src/Wire/Vector/Laws.antt =====
-- The vector overloads obey the laws of the interface, with either check of the count.
use native.Mathlib.Nat.{div-add-mod, mod-lt}
use libre_connect.Base.{
  ℕ, ◌+◌, ◌-◌, ◌*◌, ◌/◌, ◌≤◌, ◌<◌, ◌≡◌, refl, ◌∙◌, ◌||◌, List, [], ◌∷◌, ◌++◌, append_assoc, length,
  drop, length-append, ltb, arith, throw_if, ok, vector_out_of_bounds, vector_exceeds_payload,
  >>=-eq-ok, le→ltb,
}
use libre_connect.Wire.Buffer.{Buffer}
use libre_connect.Wire.Codec.{Codec, IsLawful, drop_behind, le_behind, reads_then, ok_path}
use libre_connect.Wire.Primitive.{
  primitive, primitive-IsLawful, big_endian, length-big_endian, FitsIn,
}
use libre_connect.Wire.Text.{size_t, size_t-IsLawful}
use libre_connect.Wire.Vector.{
  vector, primitive_vector, deserialize_vector, deserialize_primitives, all_size, encode_all,
  encode_vector, VectorFits, length-encode_all, deserialize_all_ok, deserialize_all_bounds,
  length-le-all_size, vector_writes, vector_refuses,
}

module _ {A : Type 0} {c : Codec A} {e : A → List ℕ} {F : A → Type 0} (l : IsLawful c e F) where
  length-encode_vector : (xs : List A) → length (encode_vector e xs) ≡ 8 + all_size c xs
  length-encode_vector xs = omega (
    arith,
    length-append (big_endian 8 (length xs)) (encode_all e xs),
    length-big_endian 8 (length xs),
    length-encode_all l xs,
  )

  -- The cursor behind the count of a vector, and the bytes that are left there.
  module _ (xs : List A) (buffer : Buffer) (offset : ℕ) (post : List ℕ) (h : offset ≤ length buffer)
      (g : drop offset buffer ≡ encode_vector e xs ++ post) where
    behind_count : drop offset buffer ≡ big_endian 8 (length xs) ++ (encode_all e xs ++ post)
    behind_count = g ∙ append_assoc (big_endian 8 (length xs)) (encode_all e xs) post

    count_in_bounds : offset + 8 ≤ length buffer
    count_in_bounds = le_behind buffer offset 8 _ _ h behind_count (length-big_endian 8 (length xs))

    elements : drop (offset + 8) buffer ≡ encode_all e xs ++ post
    elements =
        drop_behind buffer offset 8 (offset + 8) _ _ behind_count (length-big_endian 8 (length xs))
          refl

    elements_in_bounds : offset + 8 + all_size c xs ≤ length buffer
    elements_in_bounds =
        le_behind buffer (offset + 8) (all_size c xs) _ post count_in_bounds elements
          (length-encode_all l xs)

  vector_reads :
      (xs : List A) (buffer : Buffer) (offset : ℕ) (post : List ℕ)
      → VectorFits F xs
      → offset ≤ length buffer
      → drop offset buffer ≡ encode_vector e xs ++ post
      → deserialize_vector c buffer offset ≡ ok (xs, offset + (8 + all_size c xs))
  unfolding deserialize_vector primitive
  vector_reads xs buffer offset post f h g =
      reads_then size_t-IsLawful (length xs) buffer offset _ _ f.0 h
        (behind_count xs buffer offset post h g)
      ∙ rw
          (
            le→ltb (length buffer) (offset + 8) (count_in_bounds xs buffer offset post h g),
            le→ltb (length buffer - (offset + 8)) (length xs) (
                omega
                  (arith, elements_in_bounds xs buffer offset post h g, length-le-all_size l xs)),
          )
          (deserialize_all_ok l xs buffer (offset + 8) post f.1
              (count_in_bounds xs buffer offset post h g) (elements xs buffer offset post h g)
            ∙ ok_path refl (omega arith))

  vector_in_bounds :
      (buffer : Buffer) (offset : ℕ) (xs : List A) (offset' : ℕ)
      → deserialize_vector c buffer offset ≡ ok (xs, offset')
      → (offset ≤ offset') × (offset' ≤ length buffer)
  unfolding deserialize_vector
  vector_in_bounds buffer offset xs offset' h =
      let ((n, i), first, rest) = >>=-eq-ok (size_t.deserialize buffer offset) _ h in
      let (_, _, rest') =
        >>=-eq-ok (throw_if (ltb (length buffer) i) vector_out_of_bounds) _ rest in
      let (_, _, last) =
        >>=-eq-ok (throw_if (ltb (length buffer - i) n) vector_exceeds_payload) _ rest' in
      let p = size_t-IsLawful.in_bounds buffer offset n i first in
      let q = deserialize_all_bounds l n buffer i xs offset' p.1 last in (omega arith, q.1)

  pub vector-IsLawful : IsLawful (vector c) (encode_vector e) (VectorFits F)
  unfolding vector
  vector-IsLawful = record {
    length-encode = length-encode_vector;
    size_pos = λ xs. omega arith;
    writes = vector_writes l;
    refuses = vector_refuses l;
    reads = vector_reads;
    in_bounds = vector_in_bounds;
  }

le_div : (n width r : ℕ) → 0 < width → n * width ≤ r → n ≤ r / width
le_div n width r pos h = grind (arith, div-add-mod r width, mod-lt r pos)

module _ (width : ℕ) (pos : 1 ≤ width) where
  lawful : IsLawful (primitive width) (big_endian width) (FitsIn width)
  lawful = primitive-IsLawful width pos

  all_size-primitive : (xs : List ℕ) → all_size (primitive width) xs ≡ length xs * width
  unfolding all_size primitive
  all_size-primitive [] = omega arith
  all_size-primitive (x ∷ xs) = omega (arith, all_size-primitive xs)

  room :
      (xs : List ℕ) (buffer : Buffer) (offset : ℕ) (post : List ℕ)
      → offset ≤ length buffer
      → drop offset buffer ≡ encode_vector (big_endian width) xs ++ post
      → length xs * width ≤ length buffer - (offset + 8)
  room xs buffer offset post h g =
      omega (arith, elements_in_bounds lawful xs buffer offset post h g, all_size-primitive xs)

  primitives_reads :
      (xs : List ℕ) (buffer : Buffer) (offset : ℕ) (post : List ℕ)
      → VectorFits (FitsIn width) xs
      → offset ≤ length buffer
      → drop offset buffer ≡ encode_vector (big_endian width) xs ++ post
      → deserialize_primitives width buffer offset
        ≡ ok (xs, offset + (8 + all_size (primitive width) xs))
  unfolding deserialize_primitives primitive
  primitives_reads xs buffer offset post f h g =
      let behind : drop (offset + 8) buffer ≡ encode_all (big_endian width) xs ++ post =
        elements lawful xs buffer offset post h g in
      reads_then size_t-IsLawful (length xs) buffer offset _ _ f.0 h
        (behind_count lawful xs buffer offset post h g)
      ∙ rw
          (
            le→ltb (length buffer) (offset + 8) (count_in_bounds lawful xs buffer offset post h g),
            le→ltb ((length buffer - (offset + 8)) / width) (length xs) (
                le_div (length xs) width (length buffer - (offset + 8)) pos
                  (room xs buffer offset post h g)),
          )
          (deserialize_all_ok lawful xs buffer (offset + 8) post f.1
              (count_in_bounds lawful xs buffer offset post h g) behind
            ∙ ok_path refl (omega arith))

  primitives_in_bounds :
      (buffer : Buffer) (offset : ℕ) (xs : List ℕ) (offset' : ℕ)
      → deserialize_primitives width buffer offset ≡ ok (xs, offset')
      → (offset ≤ offset') × (offset' ≤ length buffer)
  unfolding deserialize_primitives
  primitives_in_bounds buffer offset xs offset' h =
      let ((n, i), first, rest) = >>=-eq-ok (size_t.deserialize buffer offset) _ h in
      let (_, _, last) =
        >>=-eq-ok
          (throw_if (ltb (length buffer) i || ltb ((length buffer - i) / width) n)
            vector_out_of_bounds)
          _ rest in
      let p = size_t-IsLawful.in_bounds buffer offset n i first in
      let q = deserialize_all_bounds lawful n buffer i xs offset' p.1 last in (omega arith, q.1)

  pub primitive_vector-IsLawful :
      IsLawful
        (primitive_vector width)
        (encode_vector (big_endian width))
        (VectorFits (FitsIn width))
  unfolding primitive_vector
  primitive_vector-IsLawful = record {
    length-encode = length-encode_vector lawful;
    size_pos = λ xs. omega arith;
    writes = vector_writes lawful;
    refuses = vector_refuses lawful;
    reads = primitives_reads;
    in_bounds = primitives_in_bounds;
  }
