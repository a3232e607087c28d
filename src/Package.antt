-- ===== src/Package.antt =====
-- utilities/network/inc/Package.h: a message of the primary connection, a header and a body into
-- which the arguments of a call are written one behind the other.
pub mod Laws
mod Tests
use libre_connect.Base.{ℕ, ◌+◌, ◌%◌, ◌^◌, ◌≡◌, List, [], ◌∷◌, replicate, Result, ok, err, ◌>>=◌}
use libre_connect.Wire.Buffer.{Buffer}
use libre_connect.Wire.Codec.{Codec}
use libre_connect.Wire.Primitive.{primitive}

-- `PackageTypeInt` has 16 bits, `PackageSizeInt` 32 and the flags 8.
pub record PackageHeader : Type 0 where
  pub type : ℕ
  pub size : ℕ
  pub flags : ℕ

unfoldable pub package_header : Codec PackageHeader
package_header = record {
  serialize = λ h buffer offset. do
    (buffer, offset) ← (primitive 2).serialize h.type buffer offset
    (buffer, offset) ← (primitive 4).serialize h.size buffer offset
    (primitive 1).serialize h.flags buffer offset;
  deserialize = λ buffer offset. do
    (type, offset) ← (primitive 2).deserialize buffer offset
    (size, offset) ← (primitive 4).deserialize buffer offset
    (flags, offset) ← (primitive 1).deserialize buffer offset
    ok (record { type = type; size = size; flags = flags }, offset);
  size = λ _. 2 + 4 + 1;
}

-- `GetSerializedSize()`
abbrev pub header_size : ℕ
header_size = 2 + 4 + 1

abbrev pub package_size_mod : ℕ
package_size_mod = 2 ^ 32

pub record Package : Type 0 where
  pub buffer : Buffer
  pub header : PackageHeader
  pub read_offset : ℕ

-- `explicit Package(const PackageHeader&)`: the body has the size that the header states.
unfoldable pub of_header : PackageHeader → Package
of_header header = record { buffer = replicate header.size 0; header = header; read_offset = 0 }

-- The argument pack `Args... args`: values, each with the overloads of its type.
pub data Args : Type 1 where
  nil : Args
  cons : {A : Type 0} → Codec A → A → Args → Args

-- `(CalculateElementSize(args, header), ...)`; `header.size` has 32 bits.
unfoldable pub calculate_size : Args → ℕ → ℕ
calculate_size nil size = size
calculate_size (cons c a args) size = calculate_size args ((size + c.size a) % package_size_mod)

-- `(InsertElementToBody(args, newPackage, offset), ...)`
unfoldable pub insert_elements : Args → Buffer → ℕ → Result (Buffer × ℕ)
insert_elements nil buffer offset = ok (buffer, offset)
insert_elements (cons c a args) buffer offset = do
  (buffer', offset') ← c.serialize a buffer offset
  insert_elements args buffer' offset'

unfoldable pub create : ℕ → Args → Result Package
create type args = do
  let new_package = of_header (record { type = type; size = calculate_size args 0; flags = 0 })
  (buffer', _) ← insert_elements args new_package.buffer 0
  ok (record new_package { buffer = buffer' })

unfoldable pub get_value : {A : Type 0} → Codec A → Package → Result (A × Package)
get_value c p = do
  (value, offset') ← c.deserialize p.buffer p.read_offset
  ok (value, record p { read_offset = offset' })
