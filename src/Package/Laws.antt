-- ===== src/Package/Laws.antt =====
-- What a package owes to the two ends of a connection: the arguments go in and come out again.
use libre_connect.Base.{
  ℕ, ◌+◌, ◌%◌, ◌≤◌, ◌<◌, ◌≡◌, refl, sym, ◌∙◌, List, [], ◌++◌, length, drop, replicate,
  length-replicate, length-append, arith, ok, err, serialize_out_of_bounds, append-nil,
  append_assoc, inl, inr, le_or_lt,
}
use libre_connect.Wire.Buffer.{Buffer, write_at, write_at_all, write_at-nil, write_at-write_at}
use libre_connect.Wire.Codec.{
  Codec, IsLawful, ok_path, writes_then, refuses_then, length_written, drop_behind, le_behind,
  reads_then,
}
use libre_connect.Wire.Primitive.{primitive, primitive-IsLawful, FitsIn, big_endian}
use libre_connect.Wire.Pair.{pair, pair-IsLawful, embed}
use libre_connect.Package.{
  PackageHeader, package_header, package_size_mod, Package, Args, nil, cons, of_header,
  calculate_size, insert_elements, create, get_value,
}

unfoldable pub encode_header : PackageHeader → List ℕ
encode_header h = big_endian 2 h.type ++ (big_endian 4 h.size ++ big_endian 1 h.flags)

abbrev pub HeaderFits : PackageHeader → Type 0
HeaderFits h = FitsIn 2 h.type × (FitsIn 4 h.size × FitsIn 1 h.flags)

-- A header is seven bytes, and reading them gives the header back.
pub package_header-IsLawful : IsLawful package_header encode_header HeaderFits
unfolding package_header encode_header pair primitive
package_header-IsLawful =
    embed
      (pair-IsLawful (primitive-IsLawful 2 (omega arith))
        (pair-IsLawful (primitive-IsLawful 4 (omega arith)) (primitive-IsLawful 1 (omega arith))))
      package_header (λ h. (h.type, (h.size, h.flags)))
      (λ p. record { type = p.0; size = p.1.0; flags = p.1.1 }) (λ h. refl)
      (λ h buffer offset. refl) (λ buffer offset. ground arith) (λ h. refl)

-- Arguments whose overloads obey the laws, with values that survive the wire.
pub data Lawful : Args → Type 1 where
  nil_lawful : Lawful nil
  cons_lawful :
      {A : Type 0} {c : Codec A} {e : A → List ℕ} {F : A → Type 0} {a : A} {args : Args}
      → IsLawful c e F
      → F a
      → Lawful args
      → Lawful (cons c a args)

abbrev pub total : Args → ℕ
total nil = 0
total (cons c a args) = c.size a + total args

encode_args : {args : Args} → Lawful args → List ℕ
encode_args nil_lawful = []
encode_args (cons_lawful {e = e} {a = a} l f rest) = e a ++ encode_args rest

length-encode_args : {args : Args} (l : Lawful args) → length (encode_args l) ≡ total args
unfolding encode_args
length-encode_args nil_lawful = refl
length-encode_args (cons_lawful {e = e} {a = a} l f rest) =
    omega
      (arith, length-append (e a) (encode_args rest), l.length-encode a, length-encode_args rest)

calculate_size-total :
    (args : Args) (size : ℕ)
    → calculate_size args size % package_size_mod ≡ (size + total args) % package_size_mod
unfolding calculate_size
calculate_size-total nil size = omega arith
calculate_size-total (cons c a args) size =
    omega (arith, calculate_size-total args ((size + c.size a) % package_size_mod))

calculate_size-lt :
    (args : Args) (size : ℕ) → size < package_size_mod → calculate_size args size < package_size_mod
unfolding calculate_size
calculate_size-lt nil size h = h
calculate_size-lt (cons c a args) size h =
    calculate_size-lt args ((size + c.size a) % package_size_mod) (omega arith)

-- The size in the header is the true size modulo 2 ^ 32.
pub calculate_size_mod : (args : Args) → calculate_size args 0 ≡ total args % package_size_mod
calculate_size_mod args =
    omega (arith, calculate_size-total args 0, calculate_size-lt args 0 (omega arith))

insert_elements_ok :
    {args : Args} (l : Lawful args) (buffer : Buffer) (offset : ℕ)
    → offset + total args ≤ length buffer
    → insert_elements args buffer offset
      ≡ ok (write_at buffer offset (encode_args l), offset + total args)
unfolding insert_elements encode_args
insert_elements_ok nil_lawful buffer offset h =
    ok_path (sym (write_at-nil buffer offset)) (omega arith)
insert_elements_ok (cons_lawful {c = c} {e = e} {a = a} l f rest) buffer offset h =
    writes_then l a buffer offset _ (omega arith)
    ∙ insert_elements_ok rest _ (offset + c.size a)
        (omega (arith, length_written l a buffer offset))
    ∙ ok_path
        (write_at-write_at buffer offset (offset + c.size a) (e a) (encode_args rest)
          (omega (arith, l.length-encode a)) (omega (arith, length-encode_args rest)))
        (omega arith)

insert_elements_err :
    {args : Args} (l : Lawful args) (buffer : Buffer) (offset : ℕ)
    → offset ≤ length buffer
    → length buffer < offset + total args
    → insert_elements args buffer offset ≡ err serialize_out_of_bounds
unfolding insert_elements
insert_elements_err nil_lawful buffer offset k h = absurd (omega arith)
insert_elements_err (cons_lawful {c = c} {a = a} l f rest) buffer offset k h =
    elim (le_or_lt (offset + c.size a) (length buffer)) [
      | inl enough ↦
          writes_then l a buffer offset _ enough
          ∙ insert_elements_err rest _ (offset + c.size a)
              (omega (arith, length_written l a buffer offset enough))
              (omega (arith, length_written l a buffer offset enough))
      | inr short ↦ refuses_then l a buffer offset _ short
    ]

-- The package that `Create` returns: the arguments' bytes and nothing else.
pub created : ℕ → (args : Args) → Lawful args → Package
created type args l = record {
  buffer = encode_args l;
  header = record { type = type; size = total args; flags = 0 };
  read_offset = 0;
}

pub create_ok :
    (type : ℕ) {args : Args} (l : Lawful args)
    → total args < package_size_mod
    → create type args ≡ ok (created type args l)
unfolding create of_header created
create_ok type {args} l h = rw (calculate_size_mod args ∙ small) (
    rw (insert_elements_ok l (replicate (total args) 0) 0 (omega (arith, room))) (
      rw (
        write_at_all (replicate (total args) 0) (encode_args l) (length-encode_args l ∙ sym room))))
  where
    room : length {A = ℕ} (replicate (total args) 0) ≡ total args
    room = length-replicate (total args) 0

    small : total args % package_size_mod ≡ total args
    small = omega arith

-- Calls of `GetValue` for the types of the arguments, in order, and what they return.
abbrev pub ReadsBack : Args → Package → Package → Type 0
ReadsBack nil p q = p ≡ q
ReadsBack (cons c a args) p q = (p' : Package) × (get_value c p ≡ ok (a, p')) × ReadsBack args p' q

reads_back :
    {args : Args} (l : Lawful args) (p : Package) (k : ℕ) (post : List ℕ)
    → p.read_offset ≤ length p.buffer
    → drop p.read_offset p.buffer ≡ encode_args l ++ post
    → p.read_offset + total args ≡ k
    → ReadsBack args p (record p { read_offset = k })
unfolding get_value encode_args
reads_back nil_lawful p k post h g z =
    let z' : p.read_offset ≡ k = omega arith in λ i. record p { read_offset = z' i }
reads_back (cons_lawful {c = c} {e = e} {a = a} l f rest) p k post h g z = (
  record p { read_offset = p.read_offset + c.size a },
  reads_then l a p.buffer p.read_offset (encode_args rest ++ post) _ f h g',
  reads_back rest (record p { read_offset = p.read_offset + c.size a }) k post
      (le_behind p.buffer p.read_offset (c.size a) (e a) _ h g' (l.length-encode a))
      (drop_behind p.buffer p.read_offset (c.size a) (p.read_offset + c.size a) (e a) _ g'
        (l.length-encode a) refl)
      (omega arith),
)
  where
    g' : drop p.read_offset p.buffer ≡ e a ++ (encode_args rest ++ post)
    g' = g ∙ append_assoc (e a) (encode_args rest) post

-- Below 4 GiB `Create` succeeds, the header states the size of the body, and `GetValue` called for
-- the same types in the same order gives the arguments back and ends at the end of the body.
pub create-get_value :
    (type : ℕ) {args : Args} (l : Lawful args)
    → total args < package_size_mod
    → (p : Package) × (create type args ≡ ok p)
      × (p.header.type ≡ type)
      × (p.header.size ≡ length p.buffer)
      × (q : Package) × ReadsBack args p q
      × (q.read_offset ≡ length q.buffer)
unfolding created
create-get_value type {args} l h = (
  created type args l,
  create_ok type l h,
  refl,
  sym (length-encode_args l),
  record (created type args l) { read_offset = total args },
  reads_back l (created type args l) (total args) [] (omega arith)
      (sym (append-nil (encode_args l))) (omega arith),
  sym (length-encode_args l),
)

-- At 4 GiB and above the size in the header wraps round, and writing the body throws.
pub create_overflow :
    (type : ℕ) {args : Args} (l : Lawful args)
    → package_size_mod ≤ total args
    → create type args ≡ err serialize_out_of_bounds
unfolding create of_header
create_overflow type {args} l h = rw (
    insert_elements_err l (replicate (calculate_size args 0) 0) 0 (omega arith)
      (omega (arith, length-replicate {A = ℕ} (calculate_size args 0) 0, calculate_size_mod args)))

-- A package with its flags replaced, as `SendWithFlag` does.
abbrev pub flagged : ℕ → Package → Package
flagged flags p = record p { header = record p.header { flags = flags } }

pub flagged-ReadsBack :
    (type flags : ℕ) {args : Args} (l : Lawful args)
    → (q : Package) × ReadsBack args (flagged flags (created type args l)) q
unfolding created
flagged-ReadsBack type flags {args} l = (
  record (flagged flags (created type args l)) { read_offset = total args },
  reads_back l (flagged flags (created type args l)) (total args) [] (omega arith)
      (sym (append-nil (encode_args l))) (omega arith),
)

pub created_flags :
    (type flags : ℕ) {args : Args} (l : Lawful args)
    → (flagged flags (created type args l)).header.flags ≡ flags
created_flags type flags l = refl
