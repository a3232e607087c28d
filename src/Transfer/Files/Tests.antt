-- ===== src/Transfer/Files/Tests.antt =====
-- A file of five bytes over a channel with a buffer of two.
use libre_connect.Base.{
  ℕ, ◌≡◌, refl, Bool, false, true, List, [], ◌∷◌, ◌++◌, length, replicate, some, ok, arith,
}
use libre_connect.Wire.Files.{encode_file_header}
use libre_connect.Transfer.Channel.{Channel, connected}
use libre_connect.Transfer.Files.{co_send_file, co_receive_file_data, header_of}
use libre_connect.Transfer.Files.Receiving.{MayReceive, file_round_trip}
use libre_connect.Transfer.Files.Closing.{IsOver, co_receive_file_data-IsOver}
use libre_connect.Transfer.Files.Sending.{MaySend}

abbrev idle : List ℕ → Channel
idle incoming = record {
  connection_state = connected;
  has_socket = true;
  send = false;
  receive = false;
  progress = 0;
  current_file_size = 0;
  current_file_progress = 0;
  buffer_in = replicate 2 0;
  buffer_out = replicate 2 0;
  outcomes = [];
  sent = [];
  incoming = incoming;
  disconnects = 0;
}

abbrev contents : List ℕ
contents = 10 ∷ 20 ∷ 30 ∷ 40 ∷ 50 ∷ []

idle-MaySend : MaySend (idle [])
idle-MaySend = record {
  open_state = refl;
  idle = refl;
  socket = refl;
  unbroken = refl;
  room = omega arith;
}

idle-MayReceive : MayReceive (idle [])
idle-MayReceive = record { open_state = refl; idle = refl; socket = refl; room = omega arith }

abbrev any_chunk : List ℕ → Bool
any_chunk chunk = true

file_round_trip_example :
    (sender' receiver' : Channel) × (co_send_file (some contents) (length contents) (idle [])
      ≡ (ok tt, sender'))
    × (co_receive_file_data
          (length contents)
          any_chunk
          (record (idle []) { incoming = sender'.sent ++ (1 ∷ 2 ∷ []) })
        ≡ (ok contents, receiver'))
    × (receiver'.incoming ≡ 1 ∷ 2 ∷ [])
    × (sender'.send ≡ false)
    × (receiver'.receive ≡ false)
file_round_trip_example =
    file_round_trip contents (1 ∷ 2 ∷ []) any_chunk (idle []) (idle []) (omega arith) idle-MaySend
      refl idle-MayReceive (λ chunk. refl)

-- The stream of the file stops in the middle.
co_receive_file_data-IsOver_example : IsOver 5 0 (
    co_receive_file_data 5 any_chunk
      (record (idle []) { incoming = encode_file_header (header_of 5) ++ (10 ∷ 20 ∷ 30 ∷ []) }))
co_receive_file_data-IsOver_example =
    co_receive_file_data-IsOver 5 any_chunk
      (record (idle []) { incoming = encode_file_header (header_of 5) ++ (10 ∷ 20 ∷ 30 ∷ []) })
      (record { open_state = refl; idle = refl; socket = refl; room = omega arith })
