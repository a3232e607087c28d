-- ===== src/Wire/Devices.antt =====
-- `DeviceInfo` and `InitialConnectionData` of utilities/p2p-network, which go over the wire when two
-- devices meet. A device of an older version leaves the last three texts of `DeviceInfo` out.
pub mod Versions
mod Tests
use libre_connect.Base.{
  ℕ, ◌+◌, ◌≤◌, ◌<◌, ◌≡◌, refl, sym, ap, ◌∙◌, Bool, true, false, List, [], ◌∷◌, ◌++◌, append_assoc,
  append-nil, length, drop, length-append, length-drop, ltb, lt→ltb, le→ltb, if◌then◌else◌,
  Bool-cases, ltb→lt, ltb→le, inl, inr, arith, Result, ok, err, ◌>>=◌, >>=-eq-ok, Option, none,
  some, primitive_out_of_bounds,
}
use libre_connect.Wire.Buffer.{Buffer, lacks_space, lacks_space-true}
use libre_connect.Wire.Codec.{Codec, IsLawful, reads_then, drop_behind, le_behind, ok_path}
use libre_connect.Wire.Primitive.{
  primitive, primitive-IsLawful, FitsIn, big_endian, deserialize_primitive, length-big_endian,
}
use libre_connect.Wire.Text.{
  Text, text, text-IsLawful, encode_text, TextFits, size_t, deserialize_text,
}
use libre_connect.Wire.Pair.{pair, pair-IsLawful, embed}
use libre_connect.Wire.Uuid.{uuid, uuid-IsLawful}

-- A uuid is a number, and an enumeration the number of its enumerator, whatever arrives.
pub record DeviceInfo : Type 0 where
  pub device_name : Text
  pub os_name : Text
  pub os_version : Text
  pub app_version : Text
  pub device_address : Text
  pub device_address_port : ℕ
  pub device_id : ℕ
  pub device_type : ℕ
  pub certificate_fingerprint : Text

abbrev pub InitialConnectionMode : Type 0
InitialConnectionMode = ℕ

abbrev pub pair_and_connect : InitialConnectionMode
pair_and_connect = 0

abbrev pub connect_with_pair : InitialConnectionMode
connect_with_pair = 1

abbrev pub connection_without_pair : InitialConnectionMode
connection_without_pair = 2

pub record InitialConnectionData : Type 0 where
  pub device_info : DeviceInfo
  pub initial_connection_mode : InitialConnectionMode

-- `if (offset < buffer.size()) DeserializeObject(...) else clear()`
unfoldable pub deserialize_if_left : Buffer → ℕ → Result (Text × ℕ)
deserialize_if_left buffer offset =
    if ltb offset (length buffer) then text.deserialize buffer offset else ok ([], offset)

-- A value and a text that may be left out.
module _ {A : Type 0} (c : Codec A) where
  abbrev pub with_text : Codec (A × Text)
  with_text = record {
    serialize = (pair c text).serialize;
    deserialize = λ buffer offset. do
      (first, offset') ← c.deserialize buffer offset
      (second, offset'') ← deserialize_if_left buffer offset'
      ok ((first, second), offset'');
    size = (pair c text).size;
  }

pub if_left :
    (buffer : Buffer) (offset : ℕ)
    → offset < length buffer
    → deserialize_if_left buffer offset ≡ text.deserialize buffer offset
unfolding deserialize_if_left
if_left buffer offset h = rw (lt→ltb offset (length buffer) h) refl

pub none_left :
    (buffer : Buffer) (offset : ℕ)
    → length buffer ≤ offset
    → deserialize_if_left buffer offset ≡ ok ([], offset)
unfolding deserialize_if_left
none_left buffer offset h = rw (le→ltb offset (length buffer) h) refl

if_left-in_bounds :
    (buffer : Buffer) (offset : ℕ) (s : Text) (offset' : ℕ)
    → offset ≤ length buffer
    → deserialize_if_left buffer offset ≡ ok (s, offset')
    → (offset ≤ offset') × (offset' ≤ length buffer)
if_left-in_bounds buffer offset s offset' k h = elim (Bool-cases (ltb offset (length buffer))) [
  | inl left ↦
      text-IsLawful.in_bounds buffer offset s offset'
        (sym (if_left buffer offset (ltb→lt offset (length buffer) left)) ∙ h)
  | inr gone ↦
      let z : offset ≡ offset' =
        same (sym (none_left buffer offset (ltb→le offset (length buffer) gone)) ∙ h) in
      (omega arith, omega arith)
]
  where
    same : ◌≡◌ {A = Result (Text × ℕ)} (ok ([], offset)) (ok (s, offset')) → offset ≡ offset'
    same e = cc

module _ {A : Type 0} {c : Codec A} {e : A → List ℕ} {F : A → Type 0} (l : IsLawful c e F) where
  text_length : (s : Text) → 8 ≤ length (encode_text s)
  unfolding encode_text
  text_length s =
      omega (arith, length-append (big_endian 8 (length s)) s, length-big_endian 8 (length s))

  pub with_text-IsLawful :
      IsLawful (with_text c) (λ p. e p.0 ++ encode_text p.1) (λ p. F p.0 × TextFits p.1)
  unfolding pair
  with_text-IsLawful =
      let p-lawful = pair-IsLawful l text-IsLawful in
      record {
        length-encode = p-lawful.length-encode;
        size_pos = p-lawful.size_pos;
        writes = p-lawful.writes;
        refuses = p-lawful.refuses;
        reads = λ p buffer offset post f h g.
            let g' = g ∙ append_assoc (e p.0) (encode_text p.1) post in
            let le =
              le_behind buffer offset (c.size p.0) (e p.0) (encode_text p.1 ++ post) h g'
                (l.length-encode p.0) in
            let g'' =
              drop_behind buffer offset (c.size p.0) (offset + c.size p.0) (e p.0)
                (encode_text p.1 ++ post) g' (l.length-encode p.0) refl in
            let left : offset + c.size p.0 < length buffer = omega (
              arith,
              length-drop (offset + c.size p.0) buffer,
              ap length g'',
              length-append (encode_text p.1) post,
              text_length p.1,
            ) in
            reads_then l p.0 buffer offset (encode_text p.1 ++ post) _ f.0 h g'
            ∙ ap (λ (r : Result (Text × ℕ)). r >>= λ (q : Text × ℕ). ok ((p.0, q.0), q.1))
                (if_left buffer (offset + c.size p.0) left)
            ∙ reads_then text-IsLawful p.1 buffer (offset + c.size p.0) post _ f.1 le g''
            ∙ ok_path refl (omega arith);
        in_bounds = λ buffer offset p offset' h.
            let ((a, k), first, rest) = >>=-eq-ok (c.deserialize buffer offset) _ h in
            let ((b, k'), second, last) = >>=-eq-ok (deserialize_if_left buffer k) _ rest in
            let x = l.in_bounds buffer offset a k first in
            let y = if_left-in_bounds buffer k b k' x.1 second in
            let z : k' ≡ offset' = cc last in (omega arith, omega arith);
      }

module _ (to_string : ℕ → Text) (generator : Text → Option ℕ) where
  abbrev pub uuids : Codec ℕ
  uuids = uuid to_string generator

  unfoldable pub device_info : Codec DeviceInfo
  device_info = record {
    serialize = λ d buffer offset. do
      (buffer, offset) ← text.serialize d.device_name buffer offset
      (buffer, offset) ← (primitive 2).serialize d.device_address_port buffer offset
      (buffer, offset) ← uuids.serialize d.device_id buffer offset
      (buffer, offset) ← (primitive 4).serialize d.device_type buffer offset
      (buffer, offset) ← text.serialize d.certificate_fingerprint buffer offset
      (buffer, offset) ← text.serialize d.os_name buffer offset
      (buffer, offset) ← text.serialize d.os_version buffer offset
      text.serialize d.app_version buffer offset;
    deserialize = λ buffer offset. do
      (device_name, offset) ← text.deserialize buffer offset
      (device_address_port, offset) ← (primitive 2).deserialize buffer offset
      (device_id, offset) ← uuids.deserialize buffer offset
      (device_type, offset) ← (primitive 4).deserialize buffer offset
      (certificate_fingerprint, offset) ← text.deserialize buffer offset
      (os_name, offset) ← deserialize_if_left buffer offset
      (os_version, offset) ← deserialize_if_left buffer offset
      (app_version, offset) ← deserialize_if_left buffer offset
      ok (
        record {
          device_name = device_name;
          os_name = os_name;
          os_version = os_version;
          app_version = app_version;
          device_address = [];
          device_address_port = device_address_port;
          device_id = device_id;
          device_type = device_type;
          certificate_fingerprint = certificate_fingerprint;
        },
        offset,
      );
    size = λ d.
        text.size d.device_name
        + 2
        + uuids.size d.device_id
        + 4
        + text.size d.certificate_fingerprint
        + text.size d.os_name
        + text.size d.os_version
        + text.size d.app_version;
  }

  unfoldable pub initial_connection_data : Codec InitialConnectionData
  unfolding device_info
  initial_connection_data = record {
    serialize = λ d buffer offset. do
      (buffer, offset) ← device_info.serialize d.device_info buffer offset
      (primitive 1).serialize d.initial_connection_mode buffer offset;
    deserialize = λ buffer offset. do
      (device, offset) ← device_info.deserialize buffer offset
      (mode, offset) ← (primitive 1).deserialize buffer offset
      ok (record { device_info = device; initial_connection_mode = mode }, offset);
    size = λ d. device_info.size d.device_info + 1;
  }
