-- ===== src/Wire/Codec.antt =====
-- The overload set `SerializeObject`, `DeserializeObject`, `GetObjectSerializedSize` of one C++ type
-- as a record of operations, and what each overload owes to its callers.
use libre_connect.Base.{
  ℕ, ◌+◌, ◌≤◌, ◌<◌, ◌≡◌, sym, ap, ◌∙◌, List, ◌++◌, length, drop, length-append, length-drop,
  drop-append, drop-drop, arith, Result, ok, err, ◌>>=◌, serialize_out_of_bounds,
}
use libre_connect.Wire.Buffer.{Buffer, write_at, length-write_at}

pub record Codec (A : Type 0) : Type 0 where
  pub serialize : A → Buffer → ℕ → Result (Buffer × ℕ)
  pub deserialize : Buffer → ℕ → Result (A × ℕ)
  pub size : A → ℕ

-- `encode` gives the bytes of a value, independent of any buffer; `Fits` says which values survive
-- the wire.
pub record IsLawful {A : Type 0} (c : Codec A) (encode : A → List ℕ) (Fits : A → Type 0)
    : Type 0 where
  pub length-encode : (a : A) → length (encode a) ≡ c.size a
  pub size_pos : (a : A) → 1 ≤ c.size a
  pub writes :
      (a : A) (buffer : Buffer) (offset : ℕ)
      → offset + c.size a ≤ length buffer
      → c.serialize a buffer offset ≡ ok (write_at buffer offset (encode a), offset + c.size a)
  pub refuses :
      (a : A) (buffer : Buffer) (offset : ℕ)
      → length buffer < offset + c.size a
      → c.serialize a buffer offset ≡ err serialize_out_of_bounds
  pub reads :
      (a : A) (buffer : Buffer) (offset : ℕ) (post : List ℕ)
      → Fits a
      → offset ≤ length buffer
      → drop offset buffer ≡ encode a ++ post
      → c.deserialize buffer offset ≡ ok (a, offset + c.size a)
  pub in_bounds :
      (buffer : Buffer) (offset : ℕ) (a : A) (offset' : ℕ)
      → c.deserialize buffer offset ≡ ok (a, offset')
      → (offset ≤ offset') × (offset' ≤ length buffer)

-- The cursor behind a value that has been read.
pub drop_behind :
    (buffer : Buffer) (offset n k : ℕ) (bytes post : List ℕ)
    → drop offset buffer ≡ bytes ++ post
    → length bytes ≡ n
    → offset + n ≡ k
    → drop k buffer ≡ post
drop_behind buffer offset n k bytes post h e g =
    sym (drop-drop offset n k buffer g) ∙ ap (drop n) h ∙ drop-append n bytes post e

pub le_behind :
    (buffer : Buffer) (offset n : ℕ) (bytes post : List ℕ)
    → offset ≤ length buffer
    → drop offset buffer ≡ bytes ++ post
    → length bytes ≡ n
    → offset + n ≤ length buffer
le_behind buffer offset n bytes post h e g =
    omega (arith, length-drop offset buffer, ap length e, length-append bytes post)

-- Two values one behind the other: the step from which the overloads for pairs, optionals, vectors
-- and records are built.
module _ {A : Type 0} {c : Codec A} {encode : A → List ℕ} {Fits : A → Type 0}
    (l : IsLawful c encode Fits) where
  pub writes_then :
      {B : Type 0} (a : A) (buffer : Buffer) (offset : ℕ) (k : Buffer × ℕ → Result B)
      → offset + c.size a ≤ length buffer
      → (c.serialize a buffer offset >>= k)
        ≡ k (write_at buffer offset (encode a), offset + c.size a)
  writes_then a buffer offset k h = rw (l.writes a buffer offset h)

  pub refuses_then :
      {B : Type 0} (a : A) (buffer : Buffer) (offset : ℕ) (k : Buffer × ℕ → Result B)
      → length buffer < offset + c.size a
      → (c.serialize a buffer offset >>= k) ≡ err serialize_out_of_bounds
  refuses_then a buffer offset k h = rw (l.refuses a buffer offset h)

  pub reads_then :
      {B : Type 0} (a : A) (buffer : Buffer) (offset : ℕ) (post : List ℕ) (k : A × ℕ → Result B)
      → Fits a
      → offset ≤ length buffer
      → drop offset buffer ≡ encode a ++ post
      → (c.deserialize buffer offset >>= k) ≡ k (a, offset + c.size a)
  reads_then a buffer offset post k f h e = rw (l.reads a buffer offset post f h e)

  pub length_written :
      (a : A) (buffer : Buffer) (offset : ℕ)
      → offset + c.size a ≤ length buffer
      → length (write_at buffer offset (encode a)) ≡ length buffer
  length_written a buffer offset h =
      length-write_at buffer offset (encode a) (omega (arith, l.length-encode a))

pub ok_path {ℓ} :
    {A : Type ℓ} {a a' : A} {n n' : ℕ}
    → a ≡ a'
    → n ≡ n'
    → ◌≡◌ {A = Result (A × ℕ)} (ok (a, n)) (ok (a', n'))
ok_path p q = λ i. ok (p i, q i)
