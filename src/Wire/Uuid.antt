-- ===== src/Wire/Uuid.antt =====
-- Packable.h, the overloads for `uuid`, which goes over the wire as its text of 36 characters.
-- `boost::uuids::to_string` and `boost::uuids::string_generator` are parameters; a uuid is a number.
use libre_connect.Base.{
  ℕ, ◌+◌, ◌≤◌, ◌≡◌, refl, ◌∙◌, length, arith, Result, ok, err, ◌>>=◌, bad_uuid, >>=-eq-ok, Option,
  none, some,
}
use libre_connect.Wire.Buffer.{Buffer}
use libre_connect.Wire.Codec.{Codec, IsLawful, reads_then, ok_path}
use libre_connect.Wire.Text.{Text, text, text-IsLawful, encode_text, TextFits}

-- `generator(uuidStr)` throws on a malformed text.
abbrev pub parsed {ℓ} : {A : Type ℓ} → Option A → Result A
parsed none = err bad_uuid
parsed (some a) = ok a

module _ (to_string : ℕ → Text) (generator : Text → Option ℕ) where
  unfoldable pub uuid : Codec ℕ
  uuid = record {
    serialize = λ object. text.serialize (to_string object);
    deserialize = λ buffer offset. do
      (uuid_str, offset') ← text.deserialize buffer offset
      object ← parsed (generator uuid_str)
      ok (object, offset');
    size = λ _. 8 + 36;
  }

  module _ (length-to_string : (u : ℕ) → length (to_string u) ≡ 36)
      (generator-to_string : (u : ℕ) → generator (to_string u) ≡ some u) where
    size-uuid : (u : ℕ) → text.size (to_string u) ≡ 8 + 36
    unfolding text
    size-uuid u = omega (arith, length-to_string u)

    uuid_in_bounds :
        (buffer : Buffer) (offset u offset' : ℕ)
        → uuid.deserialize buffer offset ≡ ok (u, offset')
        → (offset ≤ offset') × (offset' ≤ length buffer)
    unfolding uuid
    uuid_in_bounds buffer offset u offset' h =
        let ((s, i), first, rest) = >>=-eq-ok (text.deserialize buffer offset) _ h in
        let (v, second, last) = >>=-eq-ok (parsed (generator s)) _ rest in
        let p = text-IsLawful.in_bounds buffer offset s i first in
        let z : i ≡ offset' = cc last in (omega arith, omega arith)

    pub uuid-IsLawful : IsLawful uuid (λ u. encode_text (to_string u)) (λ u. TextFits (to_string u))
    unfolding uuid
    uuid-IsLawful = record {
      length-encode = λ u. text-IsLawful.length-encode (to_string u) ∙ size-uuid u;
      size_pos = λ u. omega arith;
      writes = λ u buffer offset h.
          text-IsLawful.writes (to_string u) buffer offset (omega (arith, size-uuid u))
          ∙ ok_path refl (omega (arith, size-uuid u));
      refuses = λ u buffer offset h.
          text-IsLawful.refuses (to_string u) buffer offset (omega (arith, size-uuid u));
      reads = λ u buffer offset post f h g.
          reads_then text-IsLawful (to_string u) buffer offset post _ f h g
          ∙ rw (generator-to_string u) (ok_path refl (omega (arith, size-uuid u)));
      in_bounds = uuid_in_bounds;
    }
