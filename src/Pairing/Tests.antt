-- ===== src/Pairing/Tests.antt =====
-- A phone that pairs with a desktop, and a peer that guesses.
use libre_connect.Base.{
  length, ℕ, zero, suc, ◌+◌, ◌*◌, ◌≤◌, ◌<◌, ◌≡◌, ◌≢◌, refl, true, false, List, [], ◌∷◌, ◌++◌, some,
  arith,
}
use libre_connect.Wire.Text.{Text}
use libre_connect.Wire.Devices.{DeviceInfo, pair_and_connect}
use libre_connect.Pairing.{
  Message, device_data_for_connection, device_data_for_seeking_connection, challenge_answer_request,
  challenge_response, challenge_wrong_answer, connection_approval_request, pending_event,
  approval_requested_event, InitialConnection, Surroundings, Moment, generate_pairing_code, create,
  send, emit, begin_disconnect,
}
use libre_connect.Pairing.Dialogue.{
  data_of, seen_at, receive, accepted, co_seek, primary_listening,
  co_process_connection_approval_callback, max_number_of_verification_tries,
}
use libre_connect.Pairing.Guessing.{guess_all, guessed, code_guessed}
use libre_connect.Pairing.Approval.{
  Input, arrives, approval_answer, spawned_runs, run, pairing, approved, run-approved,
}
use libre_connect.Pairing.Bound.{wrong_answers, times_let_in, guesses-bounded}
use libre_connect.Transfer.Channel.{disconnected, connected}
use libre_connect.Pairing.Sending.{write_all, woken, co_send, ended, invitation_written}
use libre_connect.Pairing.Completion.{
  introduced, introduced_to, listens, invited, invitation, pairing_completes, code_skipped,
}

abbrev device : Text → DeviceInfo
device name = record {
  device_name = name;
  os_name = [];
  os_version = [];
  app_version = [];
  device_address = [];
  device_address_port = 0;
  device_id = 7;
  device_type = 3;
  certificate_fingerprint = name;
}

abbrev around : Text → Surroundings
around name = record {
  this_device = device name;
  to_string = λ id. id ∷ [];
  exists = λ path. some false;
  remote_address = 49 ∷ [];
}

abbrev phone : Surroundings
phone = around (112 ∷ [])

abbrev desktop : Surroundings
desktop = around (100 ∷ [])

abbrev at_time : ℕ → Moment
at_time now = record { now = now; later = now; value = 4711 }

code : generate_pairing_code 4711 ≡ 48 ∷ 48 ∷ 52 ∷ 55 ∷ 49 ∷ 49 ∷ []
unfolding generate_pairing_code
code = refl

-- The desktop, when the phone has introduced itself and its code is asked for.
abbrev asked : InitialConnection
asked = record (co_seek accepted (create [])) {
  connection_state = connected;
  receiving = true;
  challenge_result = 48 ∷ 49 ∷ [];
  challenge_left_tries = 2;
  remote = introduced phone desktop (at_time 10);
}

abbrev again : InitialConnection
again = record asked {
  bans = (guess_all desktop ((at_time 20, 50 ∷ []) ∷ (at_time 30, 51 ∷ []) ∷ []) asked).bans;
}

code_guessed_example :
    receive desktop
      (at_time 30)
      (challenge_response asked.challenge_result)
      (guess_all desktop ((at_time 20, 50 ∷ []) ∷ []) asked)
    ≡ emit
        (approval_requested_event asked.remote)
        (send connection_approval_request (guessed ((at_time 20, 50 ∷ []) ∷ []) asked))
unfolding libre_connect.Base.same_text
code_guessed_example =
    code_guessed desktop ((at_time 20, 50 ∷ []) ∷ []) (at_time 30) asked (refl, refl) (refl, tt)
      (omega arith)

abbrev visit : List Input
visit =
    approval_answer true (introduced phone desktop (at_time 10))
    ∷ (arrives (at_time 20)
          (device_data_for_seeking_connection (introduced phone desktop (at_time 10)))
        ∷ (spawned_runs ∷ []))

run-approved_example :
    (pairing (run desktop visit asked).seeks ≡ pairing asked.seeks ++ approved visit)
    × ((run desktop visit asked).connects
        ≡ asked.connects ++ libre_connect.Pairing.Approval.invited desktop visit asked)
run-approved_example = run-approved desktop visit asked

guesses-bounded_example :
    wrong_answers
      (run desktop
        (arrives (at_time 20) (challenge_response (50 ∷ [])) ∷ [])
        (co_seek accepted (create []))).packages_out
    ≤ max_number_of_verification_tries
        * times_let_in desktop
            (arrives (at_time 20) (challenge_response (50 ∷ [])) ∷ [])
            (co_seek accepted (create []))
      + 1
guesses-bounded_example =
    guesses-bounded desktop [] (arrives (at_time 20) (challenge_response (50 ∷ [])) ∷ [])

pairing_completes_example :
    ((introduced_to phone desktop (at_time 10) []).events
      ≡ pending_event (introduced phone desktop (at_time 10)) (generate_pairing_code 4711) ∷ [])
    × ((listens phone desktop
          (at_time 10)
          (generate_pairing_code 4711)
          (50 ∷ [])
          5000
          []).packages_out
        ≡ challenge_answer_request
          ∷ (connection_approval_request
              ∷ (device_data_for_seeking_connection
                    (invitation phone desktop (at_time 10) (50 ∷ []) 5000)
                  ∷ [])))
    × ((listens phone desktop (at_time 10) (generate_pairing_code 4711) (50 ∷ []) 5000 []).seeks
        ≡ introduced phone desktop (at_time 10) ∷ [])
    × ((invited phone desktop
          (at_time 10)
          (generate_pairing_code 4711)
          (50 ∷ [])
          5000
          []).packages_out
        ≡ device_data_for_connection (data_of phone.this_device pair_and_connect)
          ∷ (challenge_response (generate_pairing_code 4711) ∷ []))
    × ((invited phone desktop (at_time 10) (generate_pairing_code 4711) (50 ∷ []) 5000 []).connects
        ≡ seen_at phone.remote_address (invitation phone desktop (at_time 10) (50 ∷ []) 5000) ∷ [])
unfolding libre_connect.Pairing.Bans.is_connection_temporarily_banned
    libre_connect.Pairing.Bans.find libre_connect.Pairing.build_connection_ban_key
pairing_completes_example = pairing_completes phone desktop (at_time 10) [] [] (50 ∷ []) 5000 refl

code_skipped_example :
    ((receive desktop
        (at_time 10)
        (challenge_response [])
        (introduced_to phone desktop (at_time 10) [])).events
      ≡ pending_event (introduced phone desktop (at_time 10)) (generate_pairing_code 4711)
        ∷ (approval_requested_event (introduced phone desktop (at_time 10)) ∷ []))
    × ((co_process_connection_approval_callback true (introduced phone desktop (at_time 10)) (
          receive desktop
            (at_time 10)
            (challenge_response [])
            (introduced_to phone desktop (at_time 10) []))).seeks
        ≡ introduced phone desktop (at_time 10) ∷ [])
unfolding libre_connect.Pairing.Bans.is_connection_temporarily_banned
    libre_connect.Pairing.Bans.find libre_connect.Pairing.build_connection_ban_key
code_skipped_example = code_skipped phone desktop (at_time 10) [] refl

-- The desktop, when its primary connection listens.
abbrev approved_desktop : InitialConnection
approved_desktop = record asked {
  packages_out = connection_approval_request ∷ [];
  send_in_flight = false;
}

invitation_written_example :
    let c' = begin_disconnect (
      primary_listening desktop
        (introduced phone desktop (at_time 10))
        (50 ∷ [])
        5000
        approved_desktop) in
    ((write_all (length c'.packages_out) (woken c') ≡ (
      approved_desktop.packages_out
          ++ (device_data_for_seeking_connection
                (invitation phone desktop (at_time 10) (50 ∷ []) 5000)
              ∷ []),
      (ended, record c' { packages_out = [] }),
    ))
      × (co_send (record c' { connection_state = disconnected })
          ≡ (ended, record c' { connection_state = disconnected; packages_out = [] })))
invitation_written_example =
    invitation_written desktop (introduced phone desktop (at_time 10)) (50 ∷ []) 5000
      approved_desktop refl refl
