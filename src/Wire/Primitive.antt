-- ===== src/Wire/Primitive.antt =====
-- Packable.h, `template <Primitive T>`: integers and enums in big-endian order. A value of a signed
-- or floating type is its bit pattern.
use native.Mathlib.Nat.{pow-suc}
use libre_connect.Base.{
  ℕ, zero, suc, ◌+◌, ◌*◌, ◌/◌, ◌%◌, ◌^◌, ◌≤◌, ◌<◌, ◌≡◌, refl, ◌∙◌, List, [], ◌∷◌, ◌++◌, length,
  drop, length-append, arith, throw_if, Result, ok, err, ◌>>◌, serialize_out_of_bounds,
  primitive_out_of_bounds,
}
use libre_connect.Wire.Buffer.{
  Buffer, write_at, read_at, read_at_lem, lacks_space, ensure_serialize_space, lacks_space-false,
  lacks_space-true,
}
use libre_connect.Wire.Codec.{Codec, IsLawful, le_behind}

-- `boost::endian::native_to_big_inplace` on an object of `width` bytes.
unfoldable pub big_endian : ℕ → ℕ → List ℕ
big_endian zero n = []
big_endian (suc width) n = big_endian width (n / 256) ++ (n % 256 ∷ [])

-- `boost::endian::big_to_native_inplace`
unfoldable pub from_big_endian : ℕ → List ℕ → ℕ
from_big_endian acc [] = acc
from_big_endian acc (b ∷ bytes) = from_big_endian (acc * 256 + b) bytes

abbrev pub FitsIn : ℕ → ℕ → Type 0
FitsIn width n = n < 256 ^ width

pub length-big_endian : (width n : ℕ) → length (big_endian width n) ≡ width
unfolding big_endian
length-big_endian zero n = refl
length-big_endian (suc width) n = omega (
  arith,
  length-append (big_endian width (n / 256)) (n % 256 ∷ []),
  length-big_endian width (n / 256),
)

from_big_endian-append :
    (acc : ℕ) (bytes : List ℕ) (b : ℕ)
    → from_big_endian acc (bytes ++ (b ∷ [])) ≡ from_big_endian acc bytes * 256 + b
unfolding from_big_endian
from_big_endian-append acc [] b = refl
from_big_endian-append acc (x ∷ bytes) b = from_big_endian-append (acc * 256 + x) bytes b

-- Reading the bytes of a number that fits gives the number back.
pub from_big_endian-big_endian :
    (width n : ℕ) → FitsIn width n → from_big_endian 0 (big_endian width n) ≡ n
unfolding big_endian from_big_endian
from_big_endian-big_endian zero n h = omega arith
from_big_endian-big_endian (suc width) n h =
    from_big_endian-append 0 (big_endian width (n / 256)) (n % 256)
    ∙ omega (arith, from_big_endian-big_endian width (n / 256) (omega (arith, pow-suc 256 width)))

module _ (width : ℕ) where
  unfoldable pub serialize_primitive : ℕ → Buffer → ℕ → Result (Buffer × ℕ)
  serialize_primitive object buffer offset = do
    ensure_serialize_space buffer offset width
    ok (write_at buffer offset (big_endian width object), offset + width)

  unfoldable pub deserialize_primitive : Buffer → ℕ → Result (ℕ × ℕ)
  deserialize_primitive buffer offset = do
    throw_if (lacks_space buffer offset width) primitive_out_of_bounds
    ok (from_big_endian 0 (read_at buffer offset width), offset + width)

  unfoldable pub primitive : Codec ℕ
  primitive = record {
    serialize = serialize_primitive;
    deserialize = deserialize_primitive;
    size = λ _. width;
  }

module _ (width : ℕ) where
  writes :
      (n : ℕ) (buffer : Buffer) (offset : ℕ)
      → offset + width ≤ length buffer
      → serialize_primitive width n buffer offset
        ≡ ok (write_at buffer offset (big_endian width n), offset + width)
  unfolding serialize_primitive ensure_serialize_space
  writes n buffer offset h = rw (lacks_space-false buffer offset width h)

  refuses :
      (n : ℕ) (buffer : Buffer) (offset : ℕ)
      → length buffer < offset + width
      → serialize_primitive width n buffer offset ≡ err serialize_out_of_bounds
  unfolding serialize_primitive ensure_serialize_space
  refuses n buffer offset h = rw (lacks_space-true buffer offset width h)

  reads :
      (n : ℕ) (buffer : Buffer) (offset : ℕ) (post : List ℕ)
      → FitsIn width n
      → offset ≤ length buffer
      → drop offset buffer ≡ big_endian width n ++ post
      → deserialize_primitive width buffer offset ≡ ok (n, offset + width)
  unfolding deserialize_primitive
  reads n buffer offset post f h e = rw (
    lacks_space-false buffer offset width
        (le_behind buffer offset width (big_endian width n) post h e (length-big_endian width n)),
    read_at_lem buffer offset width (big_endian width n) post e (length-big_endian width n),
    from_big_endian-big_endian width n f,
  )

  in_bounds :
      (buffer : Buffer) (offset n offset' : ℕ)
      → deserialize_primitive width buffer offset ≡ ok (n, offset')
      → (offset ≤ offset') × (offset' ≤ length buffer)
  unfolding deserialize_primitive
  in_bounds buffer offset n offset' h = ground arith

  pub primitive-IsLawful : 1 ≤ width → IsLawful (primitive width) (big_endian width) (FitsIn width)
  unfolding primitive
  primitive-IsLawful pos = record {
    length-encode = length-big_endian width;
    size_pos = λ _. pos;
    writes = writes;
    refuses = refuses;
    reads = reads;
    in_bounds = in_bounds;
  }
