-- ===== src/Connection/Tests.antt =====
-- Two ends with two small packages.
use libre_connect.Base.{ℕ, ap, Bool, ◌≡◌, refl, true, false, List, [], ◌∷◌, ◌++◌, arith, none, some}
use libre_connect.Package.{Package}
use libre_connect.Transfer.Channel.{connected, disconnecting}
use libre_connect.Connection.{
  Connection, send_round, receive_round, begin_disconnect, leave, monitor_round,
}
use libre_connect.Connection.Rounds.{IsSendable, package_bytes, receive_round_ok}
use libre_connect.Connection.Account.{
  IsAccounted, receive_round-IsAccounted, begin_disconnect-stops,
}

abbrev first : Package
first = record {
  buffer = 7 ∷ 8 ∷ 9 ∷ [];
  header = record { type = 12; size = 3; flags = 0 };
  read_offset = 0;
}

abbrev second : Package
second = record {
  buffer = [];
  header = record { type = 300; size = 0; flags = 1 };
  read_offset = 0;
}

abbrev idle : List Package → List Package → List ℕ → ℕ → Connection
idle out in_ incoming bytes = record {
  connection_state = connected;
  connection_generation = 4;
  package_out = out;
  package_in = in_;
  inbound_queued_bytes = bytes;
  heartbeat_received = true;
  disconnected_event_sent = false;
  outcomes = [];
  sent = [];
  incoming = incoming;
  disconnects = [];
  events = 0;
}

first-IsSendable : IsSendable first
first-IsSendable = record {
  fits = (omega arith, (omega arith, omega arith));
  sized = refl;
  small = omega arith;
  kind = λ h. omega (arith, h);
  unread = refl;
}

-- The bytes of `first` again, and one more.
abbrev reading : Connection
reading = idle [] (first ∷ []) (package_bytes first ++ (1 ∷ [])) 3

reading-IsAccounted : IsAccounted reading
reading-IsAccounted = record { counted = refl; bounded = omega arith }

goes_on : (receive_round 4 reading).0 ≡ true
goes_on =
    ap (λ (r : Bool × Connection). r.0)
      (receive_round_ok 4 reading first (1 ∷ []) refl first-IsSendable refl (omega arith))

receive_round-IsAccounted_example : IsAccounted (receive_round 4 reading).1
receive_round-IsAccounted_example = receive_round-IsAccounted 4 reading reading-IsAccounted goes_on

abbrev closing : Connection
closing = record reading { connection_state = disconnecting; connection_generation = 5 }

-- Connected again, with bytes that wait.
abbrev again : Connection
again = record reading { connection_generation = 5 }

closes : begin_disconnect reading ≡ some closing
unfolding begin_disconnect leave
closes = refl

begin_disconnect-stops_example :
    ((send_round 4 again ≡ (false, again))
      × ((receive_round 4 again ≡ (false, again)) × (monitor_round 4 again ≡ (false, again))))
    × (begin_disconnect closing ≡ none)
begin_disconnect-stops_example =
    begin_disconnect-stops reading closing again (omega arith) closes refl
