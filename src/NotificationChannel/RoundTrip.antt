-- ===== src/NotificationChannel/RoundTrip.antt =====
-- A notification that is sent arrives.
use libre_connect.Base.{
  ℕ, ◌+◌, ◌-◌, ◌≤◌, ◌≡◌, refl, sym, ap, ◌∙◌, true, false, not, ◌||◌, List, [], ◌++◌, append_assoc,
  append-nil, length, take, drop, replicate, le→ltb, lt→ltb, le_or_lt, inl, inr, length-append,
  length-replicate, take-append, drop-append, some, Result, ok, err, arith,
}
use libre_connect.Wire.Buffer.{Buffer, write_at, length-write_at, drop-write_at}
use libre_connect.Wire.Primitive.{big_endian, length-big_endian, primitive}
use libre_connect.Wire.Text.{size_t-IsLawful}
use libre_connect.Wire.Notifications.{
  NotificationPacket, notification_packet, notification_packet-IsLawful, encode_notification_packet,
  NotificationPacketFits,
}
use libre_connect.Transfer.Channel.{is_connected}
use libre_connect.NotificationChannel.{
  NotificationTransferChannel, then_do, max_notification_packet_size, async_write, async_read,
  resized, serialize_packet, send_header, send_payload, send_look, send, check_size, receive_header,
  receive_payload, parsed_packet, receive_look, receive,
}

resized_enough : (size : ℕ) (buffer : Buffer) → size ≤ length (resized size buffer)
unfolding resized
resized_enough size buffer = elim (le_or_lt size (length buffer)) [
  | inl wide ↦ rw (le→ltb (length buffer) size wide) wide
  | inr narrow ↦ rw (lt→ltb (length buffer) size narrow) (
      omega (
        arith,
        narrow,
        length-append buffer (replicate (size - length buffer) 0),
        length-replicate {A = ℕ} (size - length buffer) 0,
      ))
]

take_written :
    (buffer bytes : Buffer) (n : ℕ)
    → length bytes ≡ n
    → n ≤ length buffer
    → take n (write_at buffer 0 bytes) ≡ bytes
take_written buffer bytes n e l =
    ap (take n) (drop-write_at buffer 0 bytes (omega (arith, e, l)))
    ∙ take-append n bytes (drop (0 + length bytes) buffer) e

-- A buffer of just the right size.
write_whole :
    (buffer bytes : Buffer) → length bytes ≡ length buffer → write_at buffer 0 bytes ≡ bytes
write_whole buffer bytes e =
    drop-write_at buffer 0 bytes (omega (arith, e))
    ∙ ap (λ (k : ℕ). bytes ++ drop k buffer) (omega (arith, e))
    ∙ ap (λ (xs : List ℕ). bytes ++ drop (length buffer) xs) (sym (append-nil buffer))
    ∙ ap (λ (xs : List ℕ). bytes ++ xs) (drop-append (length buffer) buffer [] refl)
    ∙ append-nil bytes

read_ok :
    (n : ℕ) (bytes rest : List ℕ) (c : NotificationTransferChannel)
    → c.incoming ≡ bytes ++ rest
    → length bytes ≡ n
    → async_read n c ≡ (ok bytes, record c { incoming = rest })
unfolding async_read
read_ok n bytes rest c e h =
    rw (le→ltb (length c.incoming) n (omega (arith, ap length e, length-append bytes rest))) (λ i. (
      ok ((ap (take n) e ∙ take-append n bytes rest h) i),
      record c { incoming = (ap (drop n) e ∙ drop-append n bytes rest h) i },
    ))

-- The bytes of a packet on the stream.
abbrev pub packet_bytes : NotificationPacket → List ℕ
packet_bytes n = big_endian 8 (notification_packet.size n) ++ encode_notification_packet n

module _ (n : NotificationPacket) where
  serialize_ok :
      (c : NotificationTransferChannel)
      → serialize_packet n c ≡ (
        ok (notification_packet.size n),
        record c {
          buffer =
              write_at
                (resized (notification_packet.size n) c.buffer)
                0
                (encode_notification_packet n);
        },
      )
  unfolding serialize_packet
  serialize_ok c =
      let wide = resized_enough (notification_packet.size n) c.buffer in
      rw
        (notification_packet-IsLawful.writes n (resized (notification_packet.size n) c.buffer) 0
          (omega (arith, wide)))
        refl

  header_ok :
      (c : NotificationTransferChannel)
      → c.outcomes ≡ []
      → send_header (notification_packet.size n) c ≡ (
        ok (notification_packet.size n),
        record c { sent = c.sent ++ big_endian 8 (notification_packet.size n) },
      )
  unfolding send_header async_write primitive
  header_ok c o = rw o (
      rw
        (size_t-IsLawful.writes (notification_packet.size n) (replicate 8 0) 0
          (omega (arith, length-replicate {A = ℕ} 8 0)))
        (ap
          (λ (bytes : List ℕ).
            then_do (async_write bytes (record c { outcomes = [] }))
              (λ _ c'. (ok (notification_packet.size n), c')))
          (write_whole (replicate 8 0) (big_endian 8 (notification_packet.size n))
            (length-big_endian 8 (notification_packet.size n)))))

  receive_payload_ok :
      (c : NotificationTransferChannel) (rest : List ℕ)
      → NotificationPacketFits n
      → notification_packet.size n ≤ length c.buffer
      → c.incoming ≡ encode_notification_packet n ++ rest
      → receive_payload (notification_packet.size n) c ≡ (
        ok n,
        record c { buffer = write_at c.buffer 0 (encode_notification_packet n); incoming = rest },
      )
  unfolding receive_payload
  receive_payload_ok c rest f l e =
      let bytes = encode_notification_packet n in
      let long = notification_packet-IsLawful.length-encode n in
      let inside : 0 + length bytes ≤ length c.buffer = omega (arith, long, l) in
      rw (read_ok (notification_packet.size n) bytes rest c e long) (
        rw
          (notification_packet-IsLawful.reads n (write_at c.buffer 0 bytes) 0
            (drop (0 + length bytes) c.buffer) f (omega arith)
            (drop-write_at c.buffer 0 bytes inside))
          refl)

  receive_header_ok :
      (c : NotificationTransferChannel) (rest : List ℕ)
      → notification_packet.size n ≤ max_notification_packet_size
      → c.incoming ≡ big_endian 8 (notification_packet.size n) ++ rest
      → receive_header c ≡ (
        ok (notification_packet.size n),
        record c { buffer = resized (notification_packet.size n) c.buffer; incoming = rest },
      )
  unfolding receive_header check_size
  receive_header_ok c rest l e =
      let size = notification_packet.size n in
      let bytes = big_endian 8 size in
      rw (read_ok 8 bytes rest c e (length-big_endian 8 size)) (
        rw
          (size_t-IsLawful.reads size bytes 0 [] (omega (arith, l)) (omega arith)
            (sym (append-nil bytes)))
          (rw (le→ltb max_notification_packet_size size l) refl))

  -- The state of a channel over which one may send, behind a packet.
  abbrev pub sent_packet : NotificationTransferChannel → NotificationTransferChannel
  sent_packet c = record c {
    write_in_progress = false;
    buffer =
        write_at (resized (notification_packet.size n) c.buffer) 0 (encode_notification_packet n);
    sent = (c.sent ++ big_endian 8 (notification_packet.size n)) ++ encode_notification_packet n;
  }

  may_use :
      (c : NotificationTransferChannel)
      → c.has_socket ≡ true
      → is_connected c.connection_state ≡ true
      → (not c.has_socket || not (is_connected c.connection_state)) ≡ false
  may_use c h k = rw (h, k) refl

  payload_ok :
      (c : NotificationTransferChannel)
      → c.outcomes ≡ []
      → send_payload (notification_packet.size n) c
        ≡ (ok tt, record c { sent = c.sent ++ take (notification_packet.size n) c.buffer })
  unfolding send_payload async_write
  payload_ok c o = rw o refl

  -- A packet is sent behind its size.
  send_ok :
      (c : NotificationTransferChannel)
      → c.has_socket ≡ true
      → is_connected c.connection_state ≡ true
      → c.write_in_progress ≡ false
      → c.outcomes ≡ []
      → send n c ≡ some (true, sent_packet c)
  unfolding send send_look
  send_ok c h k w o =
      let size = notification_packet.size n in
      let bytes = encode_notification_packet n in
      let wide = resized_enough size c.buffer in
      let c₁ : NotificationTransferChannel = record c {
        write_in_progress = true;
        buffer = write_at (resized size c.buffer) 0 bytes;
      } in
      let c₂ : NotificationTransferChannel = record c₁ { sent = c.sent ++ big_endian 8 size } in
      rw (may_use c h k) (
        rw k (
          rw w (
            rw (serialize_ok (record c { write_in_progress = true })) (
              rw (header_ok c₁ o) (
                rw (payload_ok c₂ o) (
                  ap
                    (λ (xs : List ℕ).
                      some (
                        true,
                        record (sent_packet c) { sent = (c.sent ++ big_endian 8 size) ++ xs },
                      ))
                    (take_written (resized size c.buffer) bytes size
                      (notification_packet-IsLawful.length-encode n) wide)))))))

  -- A notification of at most 32 MiB whose numbers fit their widths, a sender whose writes succeed and
  -- that has sent nothing yet, a receiver, both connected and their slots free: the notification is
  -- sent, received whole whatever the sizes of the buffers, and what follows it on the stream is left.
  pub notification_arrives :
      (sender receiver : NotificationTransferChannel) (rest : List ℕ)
      → NotificationPacketFits n
      → notification_packet.size n ≤ max_notification_packet_size
      → sender.has_socket ≡ true
      → is_connected sender.connection_state ≡ true
      → sender.write_in_progress ≡ false
      → sender.outcomes ≡ []
      → sender.sent ≡ []
      → receiver.has_socket ≡ true
      → is_connected receiver.connection_state ≡ true
      → receiver.read_in_progress ≡ false
      → (sender' receiver' : NotificationTransferChannel) × (send n sender ≡ some (true, sender'))
        × (receive (record receiver { incoming = sender'.sent ++ rest }) ≡ some (some n, receiver'))
        × (receiver'.incoming ≡ rest)
        × (sender'.write_in_progress ≡ false)
        × (receiver'.read_in_progress ≡ false)
  unfolding receive receive_look
  notification_arrives sender receiver rest f l h k w o e h' k' w' =
      let size = notification_packet.size n in
      let bytes = encode_notification_packet n in
      let stream = (sent_packet sender).sent ++ rest in
      let c : NotificationTransferChannel = record receiver {
        incoming = stream;
        read_in_progress = true;
      } in
      let c₁ : NotificationTransferChannel = record c {
        buffer = resized size receiver.buffer;
        incoming = bytes ++ rest;
      } in
      let split : stream ≡ big_endian 8 size ++ (bytes ++ rest) =
        ap (λ (xs : List ℕ). ((xs ++ big_endian 8 size) ++ bytes) ++ rest) e
        ∙ append_assoc (big_endian 8 size) bytes rest in
      (
        sent_packet sender,
        record c₁ {
          buffer = write_at (resized size receiver.buffer) 0 bytes;
          incoming = rest;
          read_in_progress = false;
        },
        send_ok sender h k w o,
        rw (may_use (record receiver { incoming = stream }) h' k') (
            rw k' (
              rw w' (
                rw (receive_header_ok c (bytes ++ rest) l split) (
                  rw (receive_payload_ok c₁ rest f (resized_enough size receiver.buffer) refl)
                    refl)))),
        refl,
        refl,
        refl,
      )

  buffer_read :
      (c : NotificationTransferChannel) (bytes rest : List ℕ)
      → c.incoming ≡ bytes ++ rest
      → length bytes ≡ notification_packet.size n
      → (receive_payload (notification_packet.size n) c).1
        ≡ record c { buffer = write_at c.buffer 0 bytes; incoming = rest }
  unfolding receive_payload
  buffer_read c bytes rest e h = rw (read_ok (notification_packet.size n) bytes rest c e h) (
      either (notification_packet.deserialize (write_at c.buffer 0 bytes) 0)
        (record c { buffer = write_at c.buffer 0 bytes; incoming = rest }))
    where
      either :
          (r : Result (NotificationPacket × ℕ)) (c' : NotificationTransferChannel)
          → (parsed_packet r c').1 ≡ c'
      either (ok p) c' = refl
      either (err x) c' = refl

  -- The directions share a buffer: where a payload of the same size arrives while a packet waits to be
  -- written, the peer gets its own bytes back in place of the packet.
  pub payload_overwritten :
      (c : NotificationTransferChannel) (bytes rest : List ℕ)
      → c.outcomes ≡ []
      → c.incoming ≡ bytes ++ rest
      → length bytes ≡ notification_packet.size n
      → let c₁ = (serialize_packet n c).1 in
        let c₂ = (receive_payload (notification_packet.size n) c₁).1 in
        (send_payload (notification_packet.size n) c₂).1.sent ≡ c.sent ++ bytes
  payload_overwritten c bytes rest o e h =
      let size = notification_packet.size n in
      let wide = resized_enough size c.buffer in
      let buffer = write_at (resized size c.buffer) 0 (encode_notification_packet n) in
      let c₁ : NotificationTransferChannel = record c { buffer = buffer } in
      let room : size ≤ length buffer = omega (
        arith,
        wide,
        length-write_at (resized size c.buffer) 0 (encode_notification_packet n)
            (omega (arith, wide, notification_packet-IsLawful.length-encode n)),
      ) in
      rw (serialize_ok c) (
        rw (buffer_read c₁ bytes rest e h) (
          rw (payload_ok (record c₁ { buffer = write_at buffer 0 bytes; incoming = rest }) o)
            (ap (λ (xs : List ℕ). c.sent ++ xs) (take_written buffer bytes size h room))))
