-- ===== src/Transfer/Files/Sending.antt =====
-- What `CoSendFile` writes.
use libre_connect.Base.{
  ℕ, zero, suc, ◌+◌, ◌-◌, ◌≤◌, ◌≡◌, refl, sym, ap, ◌∙◌, Bool, true, false, not, ◌||◌, List, [], ◌∷◌,
  ◌++◌, append_assoc, append-nil, length, take, drop, replicate, length-take, length-drop,
  length-replicate, take-append-drop, drop_all, le→ltb, lt→ltb, eq→==, if◌then◌else◌, ok, some,
  arith, le_or_lt, inl, inr, min,
}
use libre_connect.Wire.Buffer.{write_at, length-write_at, take-write_at, write_at_all}
use libre_connect.Wire.Codec.{ok_path}
use libre_connect.Wire.Primitive.{primitive}
use libre_connect.Wire.Text.{text}
use libre_connect.Wire.Pair.{bool}
use libre_connect.Wire.Files.{file_header, encode_file_header, file_header-IsLawful}
use libre_connect.Transfer.Channel.{Channel, connected, is_connected, async_write, add_size}
use libre_connect.Transfer.Files.{
  send_chunk, send_chunks, send, reset_send, header_of, send_with_header, co_send_file,
}

-- A channel over which a file may be sent: connected, not sending, and no write will fail.
pub record MaySend (ch : Channel) : Type 0 where
  pub open_state : ch.connection_state ≡ connected
  pub idle : ch.send ≡ false
  pub socket : ch.has_socket ≡ true
  pub unbroken : ch.outcomes ≡ []
  pub room : 1 ≤ length ch.buffer_out

pub async_write_ok :
    (bytes : List ℕ) (ch : Channel)
    → ch.outcomes ≡ []
    → async_write bytes ch ≡ (true, record ch { sent = ch.sent ++ bytes })
unfolding async_write
async_write_ok bytes ch o = rw o refl

abbrev sent_chunk : ℕ → ℕ → List ℕ → Channel → Channel
sent_chunk size offset contents ch = record ch {
  buffer_out = write_at ch.buffer_out 0 (take size contents);
  sent = ch.sent ++ take size contents;
  progress = add_size ch.progress size;
  current_file_progress = offset;
}

send_chunk_ok :
    (size offset : ℕ) (contents : List ℕ) (ch : Channel)
    → size ≤ length ch.buffer_out
    → size ≤ length contents
    → ch.outcomes ≡ []
    → send_chunk size offset contents ch ≡ (true, sent_chunk size offset contents ch)
unfolding send_chunk
send_chunk_ok size offset contents ch b c o =
    let filled = record ch { buffer_out = write_at ch.buffer_out 0 (take size contents) } in
    let whole : length (take size contents) ≡ size = omega (arith, length-take size contents) in
    let same : take size (write_at ch.buffer_out 0 (take size contents)) ≡ take size contents =
      take-write_at ch.buffer_out 0 (take size contents) size (omega (arith, whole))
        (omega (arith, whole)) in
    rw (eq→== (length (take size contents)) size whole)
      (rw same (rw (async_write_ok (take size contents) filled o) refl))

-- No write will fail, and the buffer holds a byte.
abbrev pub CanSend : Channel → Type 0
CanSend ch = (ch.outcomes ≡ []) × (1 ≤ length ch.buffer_out)

send_chunks_ok :
    (fuel file_length offset : ℕ) (contents : List ℕ) (ch : Channel)
    → file_length - offset ≤ fuel
    → length contents ≡ file_length - offset
    → 1 ≤ length ch.buffer_out
    → ch.outcomes ≡ []
    → (ch' : Channel) × (send_chunks fuel file_length offset contents ch ≡ (true, ch'))
      × (ch'.sent ≡ ch.sent ++ contents)
      × CanSend ch'
      × (ch'.has_socket ≡ ch.has_socket)
unfolding send_chunks
send_chunks_ok zero file_length offset [] ch f c b o =
    (ch, refl, sym (append-nil ch.sent), (o, b), refl)
send_chunks_ok zero file_length offset (x ∷ contents) ch f c b o = absurd (omega arith)
send_chunks_ok (suc fuel) file_length offset contents ch f c b o =
    elim (le_or_lt file_length offset) [
      | inl over ↦ (
        ch,
        rw (le→ltb offset file_length over) refl,
        sym (append-nil ch.sent)
            ∙ ap (λ (l : List ℕ). ch.sent ++ l) (sym (drop_all 0 contents (omega arith))),
        (o, b),
        refl,
      )
      | inr more ↦
          let size : ℕ = min (length ch.buffer_out) (file_length - offset) in
          let next = sent_chunk size (offset + size) contents ch in
          let wide : length next.buffer_out ≡ length ch.buffer_out =
            length-write_at ch.buffer_out 0 (take size contents)
              (omega (arith, length-take size contents)) in
          let (ch', run, written, able, same) =
            send_chunks_ok fuel file_length (offset + size) (drop size contents) next (omega arith)
              (omega (arith, length-drop size contents)) (omega arith) o in
          (
            ch',
            rw (lt→ltb offset file_length more) (
                rw (send_chunk_ok size (offset + size) contents ch (omega arith) (omega arith) o)
                  run),
            written
                ∙ append_assoc ch.sent (take size contents) (drop size contents)
                ∙ ap (λ (l : List ℕ). ch.sent ++ l) (take-append-drop size contents),
            able,
            same,
          )
    ]

pub empty_size : (file_length : ℕ) → file_header.size (header_of file_length) ≡ 17
unfolding file_header text primitive bool
empty_size file_length = refl

send_open :
    (contents : List ℕ) (n : ℕ) (ch : Channel)
    → ch.has_socket ≡ true
    → send (some contents) n ch
      ≡ send_chunks n n 0 contents (record ch { current_file_progress = 0; current_file_size = n })
unfolding send
send_open contents n ch h =
    ap
      (λ (b : Bool).
        if not b
        then (false, ch)
        else send_chunks n n 0 contents
            (record ch { current_file_progress = 0; current_file_size = n }))
      h

-- `Send` of a file that is there and as long as it is said to be.
pub send_ok :
    (contents : List ℕ) (ch : Channel)
    → ch.has_socket ≡ true
    → CanSend ch
    → (ch' : Channel) × (send (some contents) (length contents) ch ≡ (true, ch'))
      × (ch'.sent ≡ ch.sent ++ contents)
      × CanSend ch'
      × (ch'.has_socket ≡ ch.has_socket)
send_ok contents ch h c =
    let n : ℕ = length contents in
    let (ch', run, written, able, same) =
      send_chunks_ok n n 0 contents (record ch { current_file_progress = 0; current_file_size = n })
        (omega arith) (omega arith) c.1 c.0 in
    (ch', send_open contents n ch h ∙ run, written, able, same)

-- On a channel over which a file may be sent, a file that yields as many bytes as `file_size` reports
-- is written whole behind its header, and the channel may send again.
pub co_send_file_ok :
    (contents : List ℕ) (ch : Channel)
    → MaySend ch
    → (ch' : Channel) × (co_send_file (some contents) (length contents) ch ≡ (ok tt, ch'))
      × (ch'.sent ≡ ch.sent ++ (encode_file_header (header_of (length contents)) ++ contents))
      × (ch'.send ≡ false)
unfolding co_send_file send_with_header
co_send_file_ok contents ch m =
    let n : ℕ = length contents in
    let bytes = encode_file_header (header_of n) in
    let long : length bytes ≡ 17 =
      file_header-IsLawful.length-encode (header_of n) ∙ empty_size n in
    let blank = replicate {A = ℕ} (file_header.size (header_of n)) 0 in
    let blank_size : length blank ≡ 17 =
      length-replicate (file_header.size (header_of n)) 0 ∙ empty_size n in
    let header : file_header.serialize (header_of n) blank 0
        ≡ ok (bytes, 0 + file_header.size (header_of n)) =
      file_header-IsLawful.writes (header_of n) blank 0 (omega (arith, empty_size n, blank_size))
      ∙ ok_path (write_at_all blank bytes (omega (arith, blank_size, long))) refl in
    let ch₀ = record ch {
      send = true;
      progress = 0;
      current_file_size = 0;
      current_file_progress = 0;
    } in
    let ch₁ = record ch₀ { sent = ch.sent ++ bytes } in
    let (ch', run, written, _, _) =
      send_chunks_ok n n 0 contents
        (record ch₁ { current_file_progress = 0; current_file_size = n }) (omega arith)
        (omega arith) m.room m.unbroken in
    let body : send_with_header (some contents) n (file_header.serialize (header_of n) blank 0) ch₀
        ≡ (ok tt, ch') =
      rw header (
        rw (async_write_ok bytes ch₀ m.unbroken)
          (rw (send_open contents n ch₁ m.socket) (rw run refl))) in
    (
      record ch' { send = false },
      rw may_send (ap reset_send body),
      written ∙ append_assoc ch.sent bytes contents,
      refl,
    )
  where
    may_send : (not ch.has_socket || not (is_connected ch.connection_state) || ch.send) ≡ false
    may_send = rw (m.socket, m.open_state, m.idle)
