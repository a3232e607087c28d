-- ===== src/Wire/Files.antt =====
-- The structs that file transfers send, each of which writes its fields in order: `FileHeader` of
-- modules/common and `FileEntry` of utilities/file-system.
use libre_connect.Base.{ℕ, ◌+◌, refl, List, ◌++◌, arith, ok, ◌>>=◌, Bool, Option}
use libre_connect.Wire.Codec.{Codec, IsLawful}
use libre_connect.Wire.Primitive.{primitive, primitive-IsLawful, FitsIn, big_endian}
use libre_connect.Wire.Text.{
  Text, text, text-IsLawful, encode_text, TextFits, size_t, size_t-IsLawful,
}
use libre_connect.Wire.Pair.{
  pair, pair-IsLawful, embed, bool, bool-IsLawful, option, option-IsLawful, encode_option,
  OptionFits, bool_byte,
}

pub record FileHeader : Type 0 where
  pub relative_path : Text
  pub file_size : ℕ
  pub last : Bool

unfoldable pub file_header : Codec FileHeader
file_header = record {
  serialize = λ h buffer offset. do
    (buffer, offset) ← text.serialize h.relative_path buffer offset
    (buffer, offset) ← size_t.serialize h.file_size buffer offset
    bool.serialize h.last buffer offset;
  deserialize = λ buffer offset. do
    (relative_path, offset) ← text.deserialize buffer offset
    (file_size, offset) ← size_t.deserialize buffer offset
    (last, offset) ← bool.deserialize buffer offset
    ok (record { relative_path = relative_path; file_size = file_size; last = last }, offset);
  size = λ h. text.size h.relative_path + size_t.size h.file_size + bool.size h.last;
}

unfoldable pub encode_file_header : FileHeader → List ℕ
encode_file_header h =
    encode_text h.relative_path ++ (big_endian 8 h.file_size ++ big_endian 1 (bool_byte h.last))

abbrev pub FileHeaderFits : FileHeader → Type 0
FileHeaderFits h = TextFits h.relative_path × (FitsIn 8 h.file_size × FitsIn 1 (bool_byte h.last))

pub file_header-IsLawful : IsLawful file_header encode_file_header FileHeaderFits
unfolding file_header encode_file_header pair
file_header-IsLawful =
    embed (pair-IsLawful text-IsLawful (pair-IsLawful size_t-IsLawful bool-IsLawful)) file_header
      (λ h. (h.relative_path, (h.file_size, h.last)))
      (λ p. record { relative_path = p.0; file_size = p.1.0; last = p.1.1 }) (λ h. refl)
      (λ h buffer offset. refl) (λ buffer offset. ground arith) (λ h. omega arith)

-- A file type is the byte of its enumerator, whatever byte arrives.
pub record FileEntry : Type 0 where
  pub name : Option Text
  pub path : Option Text
  pub size : Option ℕ
  pub type : Option ℕ
  pub last_mod_time : Option ℕ
  pub creation_time : Option ℕ

abbrev texts : Codec (Option Text)
texts = option text

abbrev words : Codec (Option ℕ)
words = option (primitive 8)

abbrev bytes : Codec (Option ℕ)
bytes = option (primitive 1)

unfoldable pub file_entry : Codec FileEntry
file_entry = record {
  serialize = λ e buffer offset. do
    (buffer, offset) ← texts.serialize e.name buffer offset
    (buffer, offset) ← texts.serialize e.path buffer offset
    (buffer, offset) ← words.serialize e.size buffer offset
    (buffer, offset) ← bytes.serialize e.type buffer offset
    (buffer, offset) ← words.serialize e.last_mod_time buffer offset
    words.serialize e.creation_time buffer offset;
  deserialize = λ buffer offset. do
    (name, offset) ← texts.deserialize buffer offset
    (path, offset) ← texts.deserialize buffer offset
    (size, offset) ← words.deserialize buffer offset
    (type, offset) ← bytes.deserialize buffer offset
    (last_mod_time, offset) ← words.deserialize buffer offset
    (creation_time, offset) ← words.deserialize buffer offset
    ok (
      record {
        name = name;
        path = path;
        size = size;
        type = type;
        last_mod_time = last_mod_time;
        creation_time = creation_time;
      },
      offset,
    );
  size = λ e.
      texts.size e.name
      + texts.size e.path
      + words.size e.size
      + bytes.size e.type
      + words.size e.last_mod_time
      + words.size e.creation_time;
}

unfoldable pub encode_file_entry : FileEntry → List ℕ
encode_file_entry e =
    encode_option encode_text e.name
    ++ (encode_option encode_text e.path
        ++ (encode_option (big_endian 8) e.size
            ++ (encode_option (big_endian 1) e.type
                ++ (encode_option (big_endian 8) e.last_mod_time
                    ++ encode_option (big_endian 8) e.creation_time))))

abbrev pub FileEntryFits : FileEntry → Type 0
FileEntryFits e =
    OptionFits TextFits e.name
    × (OptionFits TextFits e.path
        × (OptionFits (FitsIn 8) e.size
            × (OptionFits (FitsIn 1) e.type
                × (OptionFits (FitsIn 8) e.last_mod_time × OptionFits (FitsIn 8) e.creation_time))))

texts-IsLawful : IsLawful texts (encode_option encode_text) (OptionFits TextFits)
texts-IsLawful = option-IsLawful text-IsLawful

words-IsLawful : IsLawful words (encode_option (big_endian 8)) (OptionFits (FitsIn 8))
words-IsLawful = option-IsLawful (primitive-IsLawful 8 (omega arith))

bytes-IsLawful : IsLawful bytes (encode_option (big_endian 1)) (OptionFits (FitsIn 1))
bytes-IsLawful = option-IsLawful (primitive-IsLawful 1 (omega arith))

pub file_entry-IsLawful : IsLawful file_entry encode_file_entry FileEntryFits
unfolding file_entry encode_file_entry pair
file_entry-IsLawful =
    embed
      (pair-IsLawful texts-IsLawful (
        pair-IsLawful texts-IsLawful (
          pair-IsLawful words-IsLawful
            (pair-IsLawful bytes-IsLawful (pair-IsLawful words-IsLawful words-IsLawful)))))
      file_entry (λ e. (e.name, (e.path, (e.size, (e.type, (e.last_mod_time, e.creation_time))))))
      (λ p. record {
        name = p.0;
        path = p.1.0;
        size = p.1.1.0;
        type = p.1.1.1.0;
        last_mod_time = p.1.1.1.1.0;
        creation_time = p.1.1.1.1.1;
      })
      (λ e. refl) (λ e buffer offset. refl) (λ buffer offset. ground arith) (λ e. omega arith)
