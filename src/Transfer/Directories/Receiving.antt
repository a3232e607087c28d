-- ===== src/Transfer/Directories/Receiving.antt =====
-- `CoReceiveDirectory` on the bytes of a directory.
use libre_connect.Base.{
  ℕ, zero, suc, ◌+◌, ◌-◌, ◌≤◌, ◌≡◌, refl, sym, ap, ◌∙◌, Bool, true, false, ◌&&◌, List, [], ◌∷◌,
  ◌++◌, append_assoc, append-nil, length, take, drop, length-take, length-drop, take-append-drop,
  drop_all, le→ltb, lt→ltb, ◌==◌, ok, Option, some, arith, le_or_lt, inl, inr, min, All,
}
use libre_connect.Wire.Buffer.{Buffer, write_at, length-write_at, take-write_at, drop-write_at}
use libre_connect.Wire.Primitive.{primitive, FitsIn, big_endian, length-big_endian}
use libre_connect.Wire.Text.{Text, text, is_empty, size_t, size_t-IsLawful}
use libre_connect.Wire.Pair.{bool}
use libre_connect.Wire.Files.{file_header, encode_file_header, file_header-IsLawful, FileHeaderFits}
use libre_connect.Transfer.Channel.{Channel, add_size}
use libre_connect.Transfer.Entries.Receiver.{async_read_ok}
use libre_connect.Transfer.Files.Receiving.{read_bytes_ok}
use libre_connect.Transfer.Paths.{FilePath, slash, build_safe_receive_path}
use libre_connect.Transfer.Paths.Plain.{IsPlain, join, build_safe_receive_path-plain}
use libre_connect.Transfer.Directories.{
  Storage, receive_rounds, receive, parent, write_out, unless_last, receive_into, header_read,
  bytes_read, size_read, begin_round, directory_round, max_header_size, source_header,
}
use libre_connect.Transfer.Directories.Sending.{File, source_of, header_bytes, file_bytes}

-- A file system on which every file can be written.
pub record IsWorking (st : Storage) : Type 0 where
  pub creating : (path : FilePath) → st.creates path ≡ true
  pub opening : (path : FilePath) → st.opens path ≡ true
  pub writing : (path : FilePath) (contents : List ℕ) → st.good path contents ≡ true

-- A channel in the middle of the reception.
abbrev pub CanReceive : Channel → Type 0
CanReceive ch = (ch.has_socket ≡ true) × (1 ≤ length ch.buffer_in)

abbrev received_chunk : ℕ → ℕ → List ℕ → List ℕ → Channel → Channel
received_chunk size offset chunk rest ch = record ch {
  buffer_in = write_at ch.buffer_in 0 chunk;
  incoming = rest;
  progress = add_size ch.progress size;
  current_file_progress = offset;
}

module _ (st : Storage) (working : IsWorking st) (path : FilePath) where
  receive_rounds_ok :
      (fuel n offset : ℕ) (got contents rest : List ℕ) (ch : Channel)
      → n - offset ≤ fuel
      → length contents ≡ n - offset
      → CanReceive ch
      → ch.incoming ≡ contents ++ rest
      → (ch' : Channel) × (receive_rounds st path fuel n offset got ch
          ≡ ((true, got ++ contents), ch'))
        × (ch'.incoming ≡ rest)
        × CanReceive ch'
  unfolding receive_rounds
  receive_rounds_ok zero n offset got [] rest ch f c b e =
      (ch, λ i. ((true, sym (append-nil got) i), ch), e, b)
  receive_rounds_ok zero n offset got (x ∷ contents) rest ch f c b e = absurd (omega arith)
  receive_rounds_ok (suc fuel) n offset got contents rest ch f c b e = elim (le_or_lt n offset) [
    | inl done ↦
        let none_left : contents ≡ [] = drop_all 0 contents (omega arith) in
        (
          ch,
          rw (le→ltb offset n done) (λ i. (
            (true, (sym (append-nil got) ∙ ap (λ (l : List ℕ). got ++ l) (sym none_left)) i),
            ch,
          )),
          e ∙ ap (λ (l : List ℕ). l ++ rest) none_left,
          b,
        )
    | inr more ↦
        let count : ℕ = min (length ch.buffer_in) (n - offset) in
        let chunk = take count contents in
        let whole : length chunk ≡ count = omega (arith, length-take count contents) in
        let next = received_chunk count (offset + count) chunk (drop count contents ++ rest) ch in
        let split : ch.incoming ≡ chunk ++ (drop count contents ++ rest) =
          e
          ∙ ap (λ (l : List ℕ). l ++ rest) (sym (take-append-drop count contents))
          ∙ append_assoc chunk (drop count contents) rest in
        let shown : take count (write_at ch.buffer_in 0 chunk) ≡ chunk =
          take-write_at ch.buffer_in 0 chunk count (omega (arith, whole)) (omega (arith, whole)) in
        let wide : length next.buffer_in ≡ length ch.buffer_in =
          length-write_at ch.buffer_in 0 chunk (omega (arith, whole)) in
        let (ch', run, left, able) =
          receive_rounds_ok fuel n (offset + count) (got ++ chunk) (drop count contents) rest next
            (omega arith) (omega (arith, length-drop count contents)) (b.0, omega arith) refl in
        (
          ch',
          rw (lt→ltb offset n more) (
              rw (async_read_ok 0 count chunk (drop count contents ++ rest) ch split whole) (
                rw shown (
                  rw (working.writing path (got ++ chunk)) (
                    run ∙ (λ i. (
                      (
                        true,
                        (append_assoc got chunk (drop count contents)
                              ∙ ap (λ (l : List ℕ). got ++ l) (take-append-drop count contents))
                            i,
                      ),
                      ch',
                    )))))),
          left,
          able,
        )
  ]

  receive_open :
      (n : ℕ) (ch : Channel)
      → ch.has_socket ≡ true
      → receive st path n ch
        ≡ write_out path (
            receive_rounds st path n n 0 []
              (record ch { current_file_progress = 0; current_file_size = n }))
  unfolding receive
  receive_open n ch h = rw h (rw (working.creating (parent path)) (rw (working.opening path) refl))

  receive_ok :
      (contents rest : List ℕ) (ch : Channel)
      → CanReceive ch
      → ch.incoming ≡ contents ++ rest
      → (ch' : Channel) × (receive st path (length contents) ch
          ≡ (true, (record { path = path; contents = contents } ∷ [], ch')))
        × (ch'.incoming ≡ rest)
        × CanReceive ch'
  receive_ok contents rest ch b e =
      let n : ℕ = length contents in
      let begun = record ch { current_file_progress = 0; current_file_size = n } in
      let (ch', run, left, able) =
        receive_rounds_ok n n 0 [] contents rest begun (omega arith) (omega arith) b e in
      (ch', receive_open n ch b.0 ∙ ap (write_out path) run, left, able)

-- A file whose names are plain, and whose header fits.
pub record IsSendable (file : File) : Type 0 where
  pub named : is_empty file.0 ≡ false
  pub plain : All IsPlain file.0
  pub short : length (join file.0) + 17 ≤ max_header_size
  pub fits : FitsIn 8 (length file.1)

header_size :
    (file : File) (last : Bool)
    → file_header.size (source_header (source_of file) last) ≡ length (join file.0) + 17
unfolding file_header text primitive bool
header_size file last = omega arith

header_fits :
    (file : File) (last : Bool)
    → IsSendable file
    → FileHeaderFits (source_header (source_of file) last)
header_fits file true s = (omega (arith, s.short), (s.fits, omega arith))
header_fits file false s = (omega (arith, s.short), (s.fits, omega arith))

empty_join :
    (names : FilePath) → All IsPlain names → is_empty names ≡ false → is_empty (join names) ≡ false
empty_join [] p h = cc
empty_join (name ∷ []) p h = p.0.filled
empty_join (name ∷ (next ∷ names)) p h = go name p.0.filled
  where
    go : (n : Text) → is_empty n ≡ false → is_empty (n ++ (slash ∷ join (next ∷ names))) ≡ false
    go [] f = refl
    go (c ∷ cs) f = refl

no_marker : (a b c : Bool) → c ≡ false → (a && b && c) ≡ false
no_marker true true c h = h
no_marker true false c h = refl
no_marker false b c h = refl

safe_path :
    (weakly_canonical : FilePath → Option FilePath) (base names : FilePath)
    → is_empty names ≡ false
    → All IsPlain names
    → weakly_canonical (base ++ names) ≡ some (base ++ names)
    → build_safe_receive_path weakly_canonical base (join names) ≡ some (base ++ names)
safe_path weakly_canonical base [] h p e = cc
safe_path weakly_canonical base (name ∷ names) h p e =
    build_safe_receive_path-plain weakly_canonical base name names p e

pub written :
    (buffer bytes : Buffer) (n : ℕ)
    → length bytes ≡ n
    → n ≤ length buffer
    → drop 0 (write_at buffer 0 bytes) ≡ bytes ++ drop n buffer
written buffer bytes n h l =
    drop-write_at buffer 0 bytes (omega (arith, h))
    ∙ ap (λ (k : ℕ). bytes ++ drop k buffer) (omega (arith, h))

module _ (st : Storage) (working : IsWorking st) (base : FilePath) where
  pub directory_round_ok :
      (file : File) (last : Bool) (rest : List ℕ) (buffer : Buffer) (ch : Channel)
      → IsSendable file
      → st.weakly_canonical (base ++ file.0) ≡ some (base ++ file.0)
      → length buffer ≡ max_header_size
      → CanReceive ch
      → ch.incoming ≡ file_bytes file last ++ rest
      → (buffer' : Buffer) × (ch' : Channel) × (directory_round st base buffer ch ≡ (
        unless_last last buffer',
        (record { path = base ++ file.0; contents = file.1 } ∷ [], ch'),
      ))
        × (length buffer' ≡ max_header_size)
        × (ch'.incoming ≡ rest)
        × CanReceive ch'
  unfolding directory_round begin_round size_read bytes_read header_read receive_into
  directory_round_ok file last rest buffer ch s canonical wide b e =
      let header = source_header (source_of file) last in
      let n : ℕ = file_header.size header in
      let bytes = encode_file_header header in
      let small : n ≤ max_header_size = omega (arith, header_size file last, s.short) in
      let long : length bytes ≡ n = file_header-IsLawful.length-encode header in
      let after_size = bytes ++ (file.1 ++ rest) in
      let split : ch.incoming ≡ big_endian 8 n ++ after_size =
        e
        ∙ append_assoc (header_bytes header) file.1 rest
        ∙ append_assoc (big_endian 8 n) bytes (file.1 ++ rest) in
      let sized : size_t.deserialize (big_endian 8 n) 0 ≡ ok (n, 0 + size_t.size n) =
        size_t-IsLawful.reads n (big_endian 8 n) 0 [] (omega (arith, small)) (omega arith)
          (sym (append-nil (big_endian 8 n))) in
      let filled = write_at buffer 0 bytes in
      let parsed : file_header.deserialize filled 0 ≡ ok (header, 0 + n) =
        file_header-IsLawful.reads header filled 0 (drop n buffer) (header_fits file last s)
          (omega arith) (written buffer bytes n long (omega (arith, small, wide))) in
      let (ch', run, left, able) =
        receive_ok st working (base ++ file.0) file.1 rest (record ch { incoming = file.1 ++ rest })
          b refl in
      (
        filled,
        ch',
        rw (read_bytes_ok 8 (big_endian 8 n) after_size ch split (length-big_endian 8 n)) (
            rw sized (
              rw (le→ltb max_header_size n small) (
                rw
                  (read_bytes_ok n bytes (file.1 ++ rest) (record ch { incoming = after_size }) refl
                    long)
                  (rw parsed (
                    rw
                      (no_marker last (length file.1 == 0) (is_empty (join file.0))
                        (empty_join file.0 s.plain s.named))
                      (rw (safe_path st.weakly_canonical base file.0 s.named s.plain canonical)
                        (rw run refl))))))),
        length-write_at buffer 0 bytes (omega (arith, long, small, wide)) ∙ wide,
        left,
        able,
      )
