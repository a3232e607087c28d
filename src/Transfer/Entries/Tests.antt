-- ===== src/Transfer/Entries/Tests.antt =====
-- Runs of the two ends on small listings.
use libre_connect.Base.{
  ℕ, ◌+◌, ◌≤◌, ◌≡◌, refl, ◌++◌, All, arith, true, false, List, [], ◌∷◌, replicate, Result, ok, some,
  none,
}
use libre_connect.Wire.Files.{FileEntry}
use libre_connect.Transfer.Channel.{Channel, connected}
use libre_connect.Transfer.Entries.{co_send_directory_entries, co_receive_directory_entries}
use libre_connect.Wire.Primitive.{primitive}
use libre_connect.Wire.Text.{text}
use libre_connect.Wire.Pair.{option}
use libre_connect.Wire.Files.{file_entry, FileEntryFits}
use libre_connect.Transfer.Entries.Listing.{IsReady, listing_bytes, co_send_directory_entries_ok}
use libre_connect.Transfer.Entries.RoundTrip.{IsListening, Fitting, listing_round_trip}

abbrev idle : ℕ → List ℕ → Channel
idle capacity incoming = record {
  connection_state = connected;
  has_socket = true;
  send = false;
  receive = false;
  progress = 0;
  current_file_size = 0;
  current_file_progress = 0;
  buffer_in = replicate capacity 0;
  buffer_out = replicate capacity 0;
  outcomes = [];
  sent = [];
  incoming = incoming;
  disconnects = 0;
}

abbrev entry_of : ℕ → FileEntry
entry_of n = record {
  name = some (n ∷ 65 ∷ []);
  path = none;
  size = some 1000;
  type = some 1;
  last_mod_time = none;
  creation_time = some 7;
}

abbrev listing : List FileEntry
listing = entry_of 1 ∷ entry_of 2 ∷ entry_of 3 ∷ []

stream : List ℕ
stream = (co_send_directory_entries listing (idle 100 [])).1.sent

received : Result (List FileEntry)
received = (co_receive_directory_entries (idle 100 stream)).0

idle-IsReady : IsReady (idle 100 []) 100
idle-IsReady = record {
  open_state = refl;
  idle = refl;
  socket = refl;
  unbroken = refl;
  whole = refl;
  room = omega arith;
}

idle-IsListening : IsListening (idle 100 []) 100
idle-IsListening = record {
  open_state = refl;
  idle = refl;
  socket = refl;
  whole = refl;
  room = omega arith;
  small = omega arith;
}

entry_size : (n : ℕ) → file_entry.size (entry_of n) ≡ 33
unfolding file_entry text primitive option
entry_size n = refl

listing_room : All (λ e. 16 + file_entry.size e ≤ 100) listing
listing_room =
    (omega (arith, entry_size 1), (omega (arith, entry_size 2), (omega (arith, entry_size 3), tt)))

entry_fits : (n : ℕ) → FileEntryFits (entry_of n)
entry_fits n = (omega arith, (tt, (omega arith, (omega arith, (tt, omega arith)))))

listing_fits : Fitting 100 listing
listing_fits = ((entry_fits 1, (entry_fits 2, (entry_fits 3, tt))), listing_room)

listing_round_trip_example :
    (sender' receiver' : Channel) × (co_send_directory_entries listing (idle 100 [])
      ≡ (ok tt, sender'))
    × (co_receive_directory_entries
          (record (idle 100 []) { incoming = sender'.sent ++ (1 ∷ 2 ∷ []) })
        ≡ (ok listing, receiver'))
    × (receiver'.incoming ≡ 1 ∷ 2 ∷ [])
    × (sender'.send ≡ false)
    × (receiver'.receive ≡ false)
listing_round_trip_example =
    listing_round_trip listing (idle 100 []) (idle 100 []) 100 (1 ∷ 2 ∷ []) idle-IsReady refl
      idle-IsListening (omega arith) listing_fits

co_send_directory_entries_ok_example :
    (ch' : Channel) × (co_send_directory_entries listing (idle 100 []) ≡ (ok tt, ch'))
    × (ch'.sent ≡ [] ++ listing_bytes 100 listing)
    × (ch'.send ≡ false)
co_send_directory_entries_ok_example =
    co_send_directory_entries_ok listing (idle 100 []) 100 idle-IsReady listing_room
