-- ===== src/Transfer/Files/Receiving.antt =====
-- What `CoReceiveFileData` takes from the stream, and a file sent from one end to the other.
use libre_connect.Base.{
  ℕ, zero, suc, ◌+◌, ◌-◌, ◌≤◌, ◌≡◌, refl, sym, ap, ◌∙◌, Bool, true, false, not, ◌||◌, List, [], ◌∷◌,
  ◌++◌, append_assoc, append-nil, length, take, drop, length-append, length-take, length-drop,
  take-append-drop, take-append, drop-append, drop_all, le→ltb, lt→ltb, eq→==, ok, arith, le_or_lt,
  inl, inr, min, some,
}
use libre_connect.Wire.Buffer.{write_at, length-write_at, take-write_at}
use libre_connect.Wire.Primitive.{primitive, FitsIn}
use libre_connect.Wire.Text.{text}
use libre_connect.Wire.Pair.{bool}
use libre_connect.Wire.Files.{
  FileHeader, file_header, encode_file_header, file_header-IsLawful, FileHeaderFits,
}
use libre_connect.Transfer.Channel.{Channel, connected, is_connected, ◌>>=◌}
use libre_connect.Transfer.Entries.Receiver.{async_read_ok}
use libre_connect.Transfer.Files.{
  co_send_file, header_of, read_bytes, receive_chunks, receive_data, closed_on_error,
  co_receive_file_data,
}
use libre_connect.Transfer.Files.Sending.{MaySend, co_send_file_ok, empty_size}

-- A channel over which a file may be received.
pub record MayReceive (ch : Channel) : Type 0 where
  pub open_state : ch.connection_state ≡ connected
  pub idle : ch.receive ≡ false
  pub socket : ch.has_socket ≡ true
  pub room : 1 ≤ length ch.buffer_in

pub read_bytes_ok :
    (n : ℕ) (bytes rest : List ℕ) (ch : Channel)
    → ch.incoming ≡ bytes ++ rest
    → length bytes ≡ n
    → read_bytes n ch ≡ (ok bytes, record ch { incoming = rest })
unfolding read_bytes
read_bytes_ok n bytes rest ch e h =
    rw (le→ltb (length ch.incoming) n (omega (arith, ap length e, length-append bytes rest))) (λ i.
      (
        ok ((ap (take n) e ∙ take-append n bytes rest h) i),
        record ch { incoming = (ap (drop n) e ∙ drop-append n bytes rest h) i },
      ))

abbrev received_chunk : ℕ → List ℕ → List ℕ → Channel → Channel
received_chunk received chunk rest ch = record ch {
  buffer_in = write_at ch.buffer_in 0 chunk;
  incoming = rest;
  progress = received;
  current_file_progress = received;
}

receive_chunks_ok :
    (fuel expected_size received : ℕ) (sink : List ℕ → Bool) (got contents rest : List ℕ)
    (ch : Channel)
    → expected_size - received ≤ fuel
    → length contents ≡ expected_size - received
    → 1 ≤ length ch.buffer_in
    → ((chunk : List ℕ) → sink chunk ≡ true)
    → ch.incoming ≡ contents ++ rest
    → (ch' : Channel) × (receive_chunks fuel expected_size received sink got ch
        ≡ (ok (got ++ contents), ch'))
      × (ch'.incoming ≡ rest)
unfolding receive_chunks
receive_chunks_ok zero expected_size received sink got [] rest ch f c b s e =
    (ch, λ i. (ok (sym (append-nil got) i), ch), e)
receive_chunks_ok zero expected_size received sink got (x ∷ contents) rest ch f c b s e =
    absurd (omega arith)
receive_chunks_ok (suc fuel) expected_size received sink got contents rest ch f c b s e =
    elim (le_or_lt expected_size received) [
      | inl over ↦
          let none_left : contents ≡ [] = drop_all 0 contents (omega arith) in
          (
            ch,
            rw (le→ltb received expected_size over) (λ i. (
              ok ((sym (append-nil got) ∙ ap (λ (l : List ℕ). got ++ l) (sym none_left)) i),
              ch,
            )),
            e ∙ ap (λ (l : List ℕ). l ++ rest) none_left,
          )
      | inr more ↦
          let count : ℕ = min (length ch.buffer_in) (expected_size - received) in
          let chunk = take count contents in
          let whole : length chunk ≡ count = omega (arith, length-take count contents) in
          let next = received_chunk (received + count) chunk (drop count contents ++ rest) ch in
          let split : ch.incoming ≡ chunk ++ (drop count contents ++ rest) =
            e
            ∙ ap (λ (l : List ℕ). l ++ rest) (sym (take-append-drop count contents))
            ∙ append_assoc chunk (drop count contents) rest in
          let shown : take count (write_at ch.buffer_in 0 chunk) ≡ chunk =
            take-write_at ch.buffer_in 0 chunk count (omega (arith, whole))
              (omega (arith, whole)) in
          let wide : length next.buffer_in ≡ length ch.buffer_in =
            length-write_at ch.buffer_in 0 chunk (omega (arith, whole)) in
          let (ch', run, left) =
            receive_chunks_ok fuel expected_size (received + count) sink (got ++ chunk)
              (drop count contents) rest next (omega arith)
              (omega (arith, length-drop count contents)) (omega arith) s refl in
          (
            ch',
            rw (lt→ltb received expected_size more) (
                rw (async_read_ok 0 count chunk (drop count contents ++ rest) ch split whole) (
                  rw shown (
                    rw (s chunk) (
                      run ∙ (λ i. (
                        ok (
                            (append_assoc got chunk (drop count contents)
                                ∙ ap (λ (l : List ℕ). got ++ l) (take-append-drop count contents))
                              i),
                        ch',
                      )))))),
            left,
          )
    ]

empty_fits : (n : ℕ) → FitsIn 8 n → FileHeaderFits (header_of n)
empty_fits n f = (omega arith, (f, omega arith))

receive_header_ok :
    (n i : ℕ) (sink : List ℕ → Bool) (ch : Channel)
    → receive_data n sink (ok (header_of n, i)) ch ≡ receive_chunks n n 0 sink [] ch
unfolding receive_data
receive_header_ok n i sink ch = rw (eq→== n n refl) refl

abbrev pub no_header : FileHeader
no_header = record { relative_path = []; file_size = 0; last = false }

no_header_size : file_header.size no_header ≡ 17
unfolding file_header text primitive bool
no_header_size = refl

-- Behind the guards of `CoReceiveFileData`.
pub receive_open :
    (n : ℕ) (sink : List ℕ → Bool) (ch : Channel)
    → (not ch.has_socket || not (is_connected ch.connection_state) || ch.receive) ≡ false
    → co_receive_file_data n sink ch
      ≡ closed_on_error (
          (read_bytes (file_header.size no_header) >>= λ bytes.
          receive_data n sink (file_header.deserialize bytes 0))
            (record ch {
              receive = true;
              progress = 0;
              current_file_progress = 0;
              current_file_size = n;
            }))
unfolding co_receive_file_data
receive_open n sink ch h = rw h refl

-- A file shorter than 2 ^ 64 that one end sends, on a channel over which it may send and that has sent
-- nothing yet, arrives at an end that may receive, expects its length and has a sink that takes every
-- chunk, whatever the sizes of the two buffers: the sink has got the bytes of the file in order, what
-- follows them on the stream is left unread, and both channels are free again.
pub file_round_trip :
    (contents rest : List ℕ) (sink : List ℕ → Bool) (sender receiver : Channel)
    → FitsIn 8 (length contents)
    → MaySend sender
    → sender.sent ≡ []
    → MayReceive receiver
    → ((chunk : List ℕ) → sink chunk ≡ true)
    → (sender' receiver' : Channel) × (co_send_file (some contents) (length contents) sender
        ≡ (ok tt, sender'))
      × (co_receive_file_data
            (length contents)
            sink
            (record receiver { incoming = sender'.sent ++ rest })
          ≡ (ok contents, receiver'))
      × (receiver'.incoming ≡ rest)
      × (sender'.send ≡ false)
      × (receiver'.receive ≡ false)
file_round_trip contents rest sink sender receiver f m quiet m' s =
    let n : ℕ = length contents in
    let bytes = encode_file_header (header_of n) in
    let (sender', run, written, free) = co_send_file_ok contents sender m in
    let stream : sender'.sent ++ rest ≡ bytes ++ (contents ++ rest) =
      ap (λ (l : List ℕ). l ++ rest) (written ∙ ap (λ (l : List ℕ). l ++ (bytes ++ contents)) quiet)
      ∙ append_assoc bytes contents rest in
    let ch₀ = record receiver {
      incoming = sender'.sent ++ rest;
      receive = true;
      progress = 0;
      current_file_progress = 0;
      current_file_size = n;
    } in
    let long : length bytes ≡ 17 =
      file_header-IsLawful.length-encode (header_of n) ∙ empty_size n in
    let parsed : file_header.deserialize bytes 0
        ≡ ok (header_of n, 0 + file_header.size (header_of n)) =
      file_header-IsLawful.reads (header_of n) bytes 0 [] (empty_fits n f) (omega arith)
        (sym (append-nil bytes)) in
    let (receiver', got, left) =
      receive_chunks_ok n n 0 sink [] contents rest (record ch₀ { incoming = contents ++ rest })
        (omega arith) (omega arith) m'.room s refl in
    let inner : (read_bytes (file_header.size no_header) >>= λ bytes'.
    receive_data n sink (file_header.deserialize bytes' 0))
          ch₀
        ≡ (ok contents, receiver') =
      rw
        (read_bytes_ok (file_header.size no_header) bytes (contents ++ rest) ch₀ stream
          (long ∙ sym no_header_size))
        (rw parsed (receive_header_ok n _ sink _ ∙ got)) in
    (
      sender',
      record receiver' { receive = false },
      run,
      receive_open n sink _ may_receive ∙ ap closed_on_error inner,
      left,
      free,
      refl,
    )
  where
    may_receive :
        (not receiver.has_socket
          || not (is_connected receiver.connection_state)
          || receiver.receive)
        ≡ false
    may_receive = rw (m'.socket, m'.open_state, m'.idle)
