-- ===== src/Wire/Pair.antt =====
-- Packable.h, the overloads for `std::pair`, `std::optional` and `bool`, and `embed`, by which a
-- type that goes over the wire as another one inherits its laws.
use libre_connect.Base.{
  ℕ, ◌+◌, ◌≤◌, ◌<◌, ◌≡◌, refl, sym, ◌∙◌, Bool, true, false, not, List, ◌++◌, append_assoc, length,
  drop, length-append, ◌==◌, arith, Result, ok, err, ◌>>=◌, serialize_out_of_bounds, >>=-eq-ok, inl,
  inr, le_or_lt, Option, none, some,
}
use libre_connect.Wire.Buffer.{Buffer, write_at, write_at-write_at}
use libre_connect.Wire.Codec.{
  Codec, IsLawful, length_written, drop_behind, le_behind, writes_then, refuses_then, reads_then,
  ok_path,
}
use libre_connect.Wire.Primitive.{
  primitive, primitive-IsLawful, big_endian, FitsIn, length-big_endian,
}

module _ {A B : Type 0} (c : Codec A) (d : Codec B) where
  unfoldable pub pair : Codec (A × B)
  pair = record {
    serialize = λ p buffer offset. do
      (buffer', offset') ← c.serialize p.0 buffer offset
      d.serialize p.1 buffer' offset';
    deserialize = λ buffer offset. do
      (first, offset') ← c.deserialize buffer offset
      (second, offset'') ← d.deserialize buffer offset'
      ok ((first, second), offset'');
    size = λ p. c.size p.0 + d.size p.1;
  }

abbrev pub encode_pair : {A B : Type 0} → (A → List ℕ) → (B → List ℕ) → A × B → List ℕ
encode_pair e f p = e p.0 ++ f p.1

abbrev pub PairFits : {A B : Type 0} → (A → Type 0) → (B → Type 0) → A × B → Type 0
PairFits F G p = F p.0 × G p.1

module _ {A B : Type 0} {c : Codec A} {e : A → List ℕ} {F : A → Type 0} {d : Codec B}
    {f : B → List ℕ} {G : B → Type 0} (l : IsLawful c e F) (m : IsLawful d f G) where
  writes :
      (p : A × B) (buffer : Buffer) (offset : ℕ)
      → offset + (c.size p.0 + d.size p.1) ≤ length buffer
      → (pair c d).serialize p buffer offset
        ≡ ok (write_at buffer offset (e p.0 ++ f p.1), offset + (c.size p.0 + d.size p.1))
  unfolding pair
  writes (a, b) buffer offset h =
      writes_then l a buffer offset _ (omega arith)
      ∙ m.writes b _ (offset + c.size a) (omega (arith, length_written l a buffer offset))
      ∙ ok_path
          (write_at-write_at buffer offset (offset + c.size a) (e a) (f b)
            (omega (arith, l.length-encode a)) (omega (arith, m.length-encode b)))
          (omega arith)

  refuses :
      (p : A × B) (buffer : Buffer) (offset : ℕ)
      → length buffer < offset + (c.size p.0 + d.size p.1)
      → (pair c d).serialize p buffer offset ≡ err serialize_out_of_bounds
  unfolding pair
  refuses (a, b) buffer offset h = elim (le_or_lt (offset + c.size a) (length buffer)) [
    | inl enough ↦
        writes_then l a buffer offset _ enough
        ∙ m.refuses b _ (offset + c.size a) (omega (arith, length_written l a buffer offset enough))
    | inr short ↦ refuses_then l a buffer offset _ short
  ]

  reads :
      (p : A × B) (buffer : Buffer) (offset : ℕ) (post : List ℕ)
      → PairFits F G p
      → offset ≤ length buffer
      → drop offset buffer ≡ (e p.0 ++ f p.1) ++ post
      → (pair c d).deserialize buffer offset ≡ ok (p, offset + (c.size p.0 + d.size p.1))
  unfolding pair
  reads (a, b) buffer offset post k h g =
      let g' : drop offset buffer ≡ e a ++ (f b ++ post) = g ∙ append_assoc (e a) (f b) post in
      reads_then l a buffer offset (f b ++ post) _ k.0 h g'
      ∙ reads_then m b buffer (offset + c.size a) post _ k.1
          (le_behind buffer offset (c.size a) (e a) (f b ++ post) h g' (l.length-encode a))
          (drop_behind buffer offset (c.size a) (offset + c.size a) (e a) (f b ++ post) g'
            (l.length-encode a) refl)
      ∙ ok_path refl (omega arith)

  in_bounds :
      (buffer : Buffer) (offset : ℕ) (p : A × B) (offset' : ℕ)
      → (pair c d).deserialize buffer offset ≡ ok (p, offset')
      → (offset ≤ offset') × (offset' ≤ length buffer)
  unfolding pair
  in_bounds buffer offset p offset' h =
      let ((a, k), first, rest) = >>=-eq-ok (c.deserialize buffer offset) _ h in
      let ((b, k'), second, last) = >>=-eq-ok (d.deserialize buffer k) _ rest in
      let x = l.in_bounds buffer offset a k first in
      let y = m.in_bounds buffer k b k' second in
      let z : k' ≡ offset' = cc last in (omega arith, omega arith)

  pub pair-IsLawful : IsLawful (pair c d) (encode_pair e f) (PairFits F G)
  unfolding pair
  pair-IsLawful = record {
    length-encode =
        λ p. omega (arith, length-append (e p.0) (f p.1), l.length-encode p.0, m.length-encode p.1);
    size_pos = λ p. omega (arith, l.size_pos p.0);
    writes = writes;
    refuses = refuses;
    reads = reads;
    in_bounds = in_bounds;
  }

-- A type `B` that is written as its image under `to` and rebuilt by `from`.
module _ {A B : Type 0} {c : Codec A} {e : A → List ℕ} {F : A → Type 0} (l : IsLawful c e F)
    (d : Codec B) (to : B → A) (from : A → B) (from-to : (b : B) → from (to b) ≡ b)
    (serialize_as : (b : B) (buffer : Buffer) (offset : ℕ)
      → d.serialize b buffer offset ≡ c.serialize (to b) buffer offset)
    (deserialize_as : (buffer : Buffer) (offset : ℕ)
      → d.deserialize buffer offset
        ≡ (c.deserialize buffer offset >>= λ (p : A × ℕ). ok (from p.0, p.1)))
    (size_as : (b : B) → d.size b ≡ c.size (to b)) where
  pub embed : IsLawful d (λ b. e (to b)) (λ b. F (to b))
  embed = record {
    length-encode = λ b. l.length-encode (to b) ∙ sym (size_as b);
    size_pos = λ b. omega (arith, l.size_pos (to b), size_as b);
    writes = λ b buffer offset h.
        serialize_as b buffer offset
        ∙ l.writes (to b) buffer offset (omega (arith, size_as b))
        ∙ ok_path refl (omega (arith, size_as b));
    refuses = λ b buffer offset h.
        serialize_as b buffer offset ∙ l.refuses (to b) buffer offset (omega (arith, size_as b));
    reads = λ b buffer offset post f h g.
        deserialize_as buffer offset
        ∙ reads_then l (to b) buffer offset post _ f h g
        ∙ ok_path (from-to b) (omega (arith, size_as b));
    in_bounds = λ buffer offset b offset' h.
        let ((a, k), first, rest) =
          >>=-eq-ok (c.deserialize buffer offset) _ (sym (deserialize_as buffer offset) ∙ h) in
        let x = l.in_bounds buffer offset a k first in
        let z : k ≡ offset' = cc rest in (omega arith, omega arith);
  }

-- `bool` is a primitive of one byte.
abbrev pub bool_byte : Bool → ℕ
bool_byte true = 1
bool_byte false = 0

abbrev byte_bool : ℕ → Bool
byte_bool n = not (n == 0)

unfoldable pub bool : Codec Bool
bool = record {
  serialize = λ b. (primitive 1).serialize (bool_byte b);
  deserialize = λ buffer offset. do
    (n, offset') ← (primitive 1).deserialize buffer offset
    ok (byte_bool n, offset');
  size = λ _. 1;
}

byte_bool-bool_byte : (b : Bool) → byte_bool (bool_byte b) ≡ b
byte_bool-bool_byte true = refl
byte_bool-bool_byte false = refl

pub bool-IsLawful : IsLawful bool (λ b. big_endian 1 (bool_byte b)) (λ b. FitsIn 1 (bool_byte b))
unfolding bool primitive
bool-IsLawful =
    embed (primitive-IsLawful 1 (omega arith)) bool bool_byte byte_bool byte_bool-bool_byte
      (λ b buffer offset. refl) (λ buffer offset. refl) (λ b. refl)

pub bool_fits : (b : Bool) → FitsIn 1 (bool_byte b)
bool_fits true = omega arith
bool_fits false = omega arith

module _ {A : Type 0} (c : Codec A) where
  serialize_option : Option A → Buffer → ℕ → Result (Buffer × ℕ)
  serialize_option none buffer offset = bool.serialize false buffer offset
  serialize_option (some a) buffer offset = do
    (buffer', offset') ← bool.serialize true buffer offset
    c.serialize a buffer' offset'

  deserialize_value : Bool → Buffer → ℕ → Result (Option A × ℕ)
  deserialize_value true buffer offset = do
    (a, offset') ← c.deserialize buffer offset
    ok (some a, offset')
  deserialize_value false buffer offset = ok (none, offset)

  option_size : Option A → ℕ
  option_size none = 1 + 0
  option_size (some a) = 1 + c.size a

  unfoldable pub option : Codec (Option A)
  unfolding serialize_option deserialize_value option_size
  option = record {
    serialize = serialize_option;
    deserialize = λ buffer offset. do
      (has_value, offset') ← bool.deserialize buffer offset
      deserialize_value has_value buffer offset';
    size = option_size;
  }

abbrev pub encode_option : {A : Type 0} → (A → List ℕ) → Option A → List ℕ
encode_option e none = big_endian 1 (bool_byte false)
encode_option e (some a) = big_endian 1 (bool_byte true) ++ e a

abbrev pub OptionFits : {A : Type 0} → (A → Type 0) → Option A → Type 0
OptionFits F none = Unit
OptionFits F (some a) = F a

module _ {A : Type 0} {c : Codec A} {e : A → List ℕ} {F : A → Type 0} (l : IsLawful c e F) where
  tagged :
      IsLawful
        (pair bool c)
        (encode_pair (λ b. big_endian 1 (bool_byte b)) e)
        (PairFits (λ b. FitsIn 1 (bool_byte b)) F)
  tagged = pair-IsLawful bool-IsLawful l

  option_writes :
      (o : Option A) (buffer : Buffer) (offset : ℕ)
      → offset + option_size c o ≤ length buffer
      → serialize_option c o buffer offset
        ≡ ok (write_at buffer offset (encode_option e o), offset + option_size c o)
  unfolding serialize_option option_size bool pair
  option_writes none buffer offset h = bool-IsLawful.writes false buffer offset h
  option_writes (some a) buffer offset h = tagged.writes (true, a) buffer offset h

  option_refuses :
      (o : Option A) (buffer : Buffer) (offset : ℕ)
      → length buffer < offset + option_size c o
      → serialize_option c o buffer offset ≡ err serialize_out_of_bounds
  unfolding serialize_option option_size bool pair
  option_refuses none buffer offset h = bool-IsLawful.refuses false buffer offset h
  option_refuses (some a) buffer offset h = tagged.refuses (true, a) buffer offset h

  option_reads :
      (o : Option A) (buffer : Buffer) (offset : ℕ) (post : List ℕ)
      → OptionFits F o
      → offset ≤ length buffer
      → drop offset buffer ≡ encode_option e o ++ post
      → (option c).deserialize buffer offset ≡ ok (o, offset + option_size c o)
  unfolding option deserialize_value option_size bool
  option_reads none buffer offset post k h g =
      reads_then bool-IsLawful false buffer offset post _ (bool_fits false) h g
  option_reads (some a) buffer offset post k h g =
      let g' : drop offset buffer ≡ big_endian 1 1 ++ (e a ++ post) =
        g ∙ append_assoc (big_endian 1 1) (e a) post in
      reads_then bool-IsLawful true buffer offset (e a ++ post) _ (bool_fits true) h g'
      ∙ reads_then l a buffer (offset + 1) post _ k
          (le_behind buffer offset 1 (big_endian 1 1) (e a ++ post) h g' (length-big_endian 1 1))
          (drop_behind buffer offset 1 (offset + 1) (big_endian 1 1) (e a ++ post) g'
            (length-big_endian 1 1) refl)
      ∙ ok_path refl (omega arith)

  value_bounds :
      (has_value : Bool) (buffer : Buffer) (offset : ℕ) (o : Option A) (offset' : ℕ)
      → offset ≤ length buffer
      → deserialize_value c has_value buffer offset ≡ ok (o, offset')
      → (offset ≤ offset') × (offset' ≤ length buffer)
  unfolding deserialize_value
  value_bounds false buffer offset o offset' k h =
      let z : offset ≡ offset' = cc h in (omega arith, omega arith)
  value_bounds true buffer offset o offset' k h =
      let ((a, i), first, rest) = >>=-eq-ok (c.deserialize buffer offset) _ h in
      let x = l.in_bounds buffer offset a i first in
      let z : i ≡ offset' = cc rest in (omega arith, omega arith)

  option_in_bounds :
      (buffer : Buffer) (offset : ℕ) (o : Option A) (offset' : ℕ)
      → (option c).deserialize buffer offset ≡ ok (o, offset')
      → (offset ≤ offset') × (offset' ≤ length buffer)
  unfolding option
  option_in_bounds buffer offset o offset' h =
      let ((has_value, k), first, rest) = >>=-eq-ok (bool.deserialize buffer offset) _ h in
      let x = bool-IsLawful.in_bounds buffer offset has_value k first in
      let y = value_bounds has_value buffer k o offset' x.1 rest in (omega arith, y.1)

  length-encode_option : (o : Option A) → length (encode_option e o) ≡ option_size c o
  unfolding option_size
  length-encode_option none = length-big_endian 1 0
  length-encode_option (some a) =
      omega (arith, length-append (big_endian 1 1) (e a), length-big_endian 1 1, l.length-encode a)

  option_size_pos : (o : Option A) → 1 ≤ option_size c o
  unfolding option_size
  option_size_pos none = omega arith
  option_size_pos (some a) = omega arith

  pub option-IsLawful : IsLawful (option c) (encode_option e) (OptionFits F)
  unfolding option
  option-IsLawful = record {
    length-encode = length-encode_option;
    size_pos = option_size_pos;
    writes = option_writes;
    refuses = option_refuses;
    reads = option_reads;
    in_bounds = option_in_bounds;
  }
