-- ===== src/Connection/Rounds.antt =====
-- One round of `CoSend` and of `CoReceive` for a package that obeys the limits.
use libre_connect.Base.{
  ℕ, ◌+◌, ◌%◌, ◌^◌, ◌≤◌, ◌≡◌, ◌≢◌, refl, sym, ap, ◌∙◌, Bool, true, false, not, List, [], ◌∷◌, ◌++◌,
  append_assoc, append-nil, length, take, drop, replicate, length-append, length-replicate,
  take-append, drop-append, take_all, ltb, le→ltb, ◌==◌, ne→==, if◌then◌else◌, arith, ok,
}
use libre_connect.Wire.Buffer.{write_at_all}
use libre_connect.Wire.Codec.{ok_path}
use libre_connect.Package.{PackageHeader, package_header, header_size, Package, of_header}
use libre_connect.Package.Laws.{encode_header, HeaderFits, package_header-IsLawful}
use libre_connect.Connection.{
  Connection, heartbeat, max_package_size, max_inbound_queued_bytes, runs_on, write_buffers,
  header_bytes, send_package, send_round, body_read, header_read, header_parsed, receive_round,
}

pub record IsSendable (p : Package) : Type 0 where
  pub fits : HeaderFits p.header
  pub sized : length p.buffer ≡ p.header.size
  pub small : p.header.size ≤ max_package_size
  pub kind : p.header.type ≢ heartbeat
  pub unread : p.read_offset ≡ 0

abbrev pub package_bytes : Package → List ℕ
package_bytes p = encode_header p.header ++ p.buffer

size_lem : (h : PackageHeader) → package_header.size h ≡ 7
unfolding package_header
size_lem h = refl

length-encode_header : (h : PackageHeader) → length (encode_header h) ≡ 7
length-encode_header h = package_header-IsLawful.length-encode h ∙ size_lem h

header_bytes_lem : (h : PackageHeader) → header_bytes h ≡ encode_header h
unfolding header_bytes
header_bytes_lem h =
    rw
      (package_header-IsLawful.writes h (replicate header_size 0) 0
        (omega (arith, size_lem h, length-replicate {A = ℕ} header_size 0)))
      (write_at_all (replicate header_size 0) (encode_header h)
        (omega (arith, length-encode_header h, length-replicate {A = ℕ} header_size 0)))

write_buffers_lem :
    (bytes : List ℕ) (c : Connection)
    → c.outcomes ≡ []
    → write_buffers bytes c ≡ (true, record c { sent = c.sent ++ bytes })
unfolding write_buffers
write_buffers_lem bytes c e = rw e refl

module _ {A : Type 0} (g : Bool) (x y : A) where
  if_true : g ≡ true → (if g then x else y) ≡ x
  if_true h = rw h refl

  if_false : g ≡ false → (if g then x else y) ≡ y
  if_false h = rw h refl

  if_not : g ≡ true → (if not g then x else y) ≡ y
  if_not h = rw h refl

pub send_round_ok :
    (generation : ℕ) (c : Connection) (p : Package) (ps : List Package)
    → runs_on generation c ≡ true
    → c.outcomes ≡ []
    → c.package_out ≡ p ∷ ps
    → IsSendable p
    → send_round generation c
      ≡ (true, record c { package_out = ps; sent = c.sent ++ package_bytes p })
unfolding send_round send_package
send_round_ok generation c p ps r o e s =
    if_true (runs_on generation c) _ _ r
    ∙ rw e (
        rw
          (
            header_bytes_lem p.header,
            take_all p.header.size p.buffer (omega (arith, s.sized)),
            write_buffers_lem (encode_header p.header ++ p.buffer) (record c { package_out = ps })
                o,
          )
          refl)

header_arrives :
    (h : PackageHeader) (rest : List ℕ)
    → HeaderFits h
    → package_header.deserialize (take header_size (encode_header h ++ rest)) 0 ≡ ok (h, 7)
header_arrives h rest f =
    ap (λ (b : List ℕ). package_header.deserialize b 0)
      (take-append header_size (encode_header h) rest (length-encode_header h))
    ∙ package_header-IsLawful.reads h (encode_header h) 0 [] f (omega arith)
        (sym (append-nil (encode_header h)))
    ∙ ok_path refl (omega (arith, size_lem h))

abbrev pub delivered : Connection → Package → List ℕ → Connection
delivered c p rest = record c {
  incoming = rest;
  package_in = c.package_in ++ (p ∷ []);
  inbound_queued_bytes = c.inbound_queued_bytes + p.header.size;
}

body_read_ok :
    (generation : ℕ) (p : Package) (c : Connection)
    → runs_on generation c ≡ true
    → p.header.type ≢ heartbeat
    → c.inbound_queued_bytes + p.header.size ≤ max_inbound_queued_bytes
    → body_read generation p c ≡ (true, delivered c p c.incoming)
unfolding body_read
body_read_ok generation p c r k l =
    let sum : (c.inbound_queued_bytes + p.header.size) % 2 ^ 64
        ≡ c.inbound_queued_bytes + p.header.size =
      omega arith in
    if_not (runs_on generation c) _ _ r
    ∙ if_false (p.header.type == heartbeat) _ _ (ne→== p.header.type heartbeat k)
    ∙ if_false (ltb max_inbound_queued_bytes ((c.inbound_queued_bytes + p.header.size) % 2 ^ 64)) _
        _ (le→ltb max_inbound_queued_bytes _ (omega (arith, sum)))
    ∙ (λ i. (true, record (delivered c p c.incoming) { inbound_queued_bytes = sum i }))

header_read_ok :
    (generation : ℕ) (p : Package) (c : Connection) (rest : List ℕ)
    → runs_on generation c ≡ true
    → IsSendable p
    → c.incoming ≡ p.buffer ++ rest
    → c.inbound_queued_bytes + p.header.size ≤ max_inbound_queued_bytes
    → header_read generation p.header c ≡ (true, delivered c p rest)
unfolding header_read of_header
header_read_ok generation p c rest r s e l =
    let body : take p.header.size c.incoming ≡ p.buffer =
      ap (take p.header.size) e ∙ take-append p.header.size p.buffer rest s.sized in
    let behind : drop p.header.size c.incoming ≡ rest =
      ap (drop p.header.size) e ∙ drop-append p.header.size p.buffer rest s.sized in
    if_not (runs_on generation c) _ _ r
    ∙ if_false (ltb max_package_size p.header.size) _ _ (le→ltb _ _ s.small)
    ∙ if_false (ltb (length c.incoming) p.header.size) _ _
        (le→ltb _ _ (omega (arith, ap length e, length-append p.buffer rest, s.sized)))
    ∙ (λ i.
        body_read generation
          (record { buffer = body i; header = p.header; read_offset = sym s.unread i })
          (record c { incoming = behind i }))
    ∙ body_read_ok generation p (record c { incoming = rest }) r s.kind l

pub receive_round_ok :
    (generation : ℕ) (c : Connection) (p : Package) (rest : List ℕ)
    → runs_on generation c ≡ true
    → IsSendable p
    → c.incoming ≡ package_bytes p ++ rest
    → c.inbound_queued_bytes + p.header.size ≤ max_inbound_queued_bytes
    → receive_round generation c ≡ (true, delivered c p rest)
unfolding receive_round header_parsed
receive_round_ok generation c p rest r s e l =
    let e' : c.incoming ≡ encode_header p.header ++ (p.buffer ++ rest) =
      e ∙ append_assoc (encode_header p.header) p.buffer rest in
    let parsed : package_header.deserialize (take header_size c.incoming) 0 ≡ ok (p.header, 7) =
      ap (λ (b : List ℕ). package_header.deserialize (take header_size b) 0) e'
      ∙ header_arrives p.header (p.buffer ++ rest) s.fits in
    let behind : drop header_size c.incoming ≡ p.buffer ++ rest =
      ap (drop header_size) e'
      ∙ drop-append header_size (encode_header p.header) _ (length-encode_header p.header) in
    if_not (runs_on generation c) _ _ r
    ∙ if_false (ltb (length c.incoming) header_size) _ _ (
        le→ltb _ _ (
          omega (
            arith,
            ap length e',
            length-append (encode_header p.header) (p.buffer ++ rest),
            length-encode_header p.header,
          )))
    ∙ rw parsed (
        header_read_ok generation p (record c { incoming = drop header_size c.incoming }) rest r s
          behind l)
