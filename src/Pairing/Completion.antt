-- ===== src/Pairing/Completion.antt =====
-- The dialogue of two devices that pair, and the same for a peer that does not know the code.
use libre_connect.Base.{ℕ, ◌≡◌, refl, ap, true, false, [], ◌∷◌, same_text, same_text_refl}
use libre_connect.Wire.Text.{Text}
use libre_connect.Wire.Devices.{InitialConnectionData, pair_and_connect}
use libre_connect.Pairing.{
  device_data_for_connection, device_data_for_seeking_connection, challenge_answer_request,
  challenge_response, connection_approval_request, pending_event, approval_requested_event,
  InitialConnection, Surroundings, Moment, generate_pairing_code, build_connection_ban_key, create,
  send, Bans,
}
use libre_connect.Pairing.Bans.{is_connection_temporarily_banned}
use libre_connect.Pairing.Dialogue.{
  data_of, seen_at, admit, device_data, device_data_for_seeking, check_response, handle, receive,
  accepted, co_connect, co_seek, co_process_connection_verification_event,
  co_process_connection_approval_callback, co_process_connection_pending_callback,
  co_primary_connection_callback, primary_listening,
}

module _ (phone desktop : Surroundings) (t : Moment) where
  -- What the phone sends of itself, as the desktop sees it.
  abbrev pub introduced : InitialConnectionData
  introduced = seen_at desktop.remote_address (data_of phone.this_device pair_and_connect)

  -- The listening end, up to the packages it receives: the phone introduces itself, the user accepts, a
  -- code arrives, the user approves, and the primary connection listens.
  abbrev pub introduced_to : Bans → InitialConnection
  introduced_to bans =
      receive desktop t (device_data_for_connection (data_of phone.this_device pair_and_connect))
        (co_seek accepted (create bans))

  abbrev pub code_asked : Bans → InitialConnection
  code_asked bans =
      co_process_connection_pending_callback true introduced (generate_pairing_code t.value)
        (introduced_to bans)

  abbrev pub code_checked : Text → Bans → InitialConnection
  code_checked code bans = receive desktop t (challenge_response code) (code_asked bans)

  abbrev pub listens : Text → Text → ℕ → Bans → InitialConnection
  listens code address port bans =
      primary_listening desktop introduced address port
        (co_process_connection_approval_callback true introduced (code_checked code bans))

  -- Where the primary connection listens.
  abbrev pub invitation : Text → ℕ → InitialConnectionData
  invitation address port = record introduced {
    device_info = record desktop.this_device {
      device_address = address;
      device_address_port = port;
    };
  }

  -- The connecting end: a code is asked for, the user enters one, the other end asks for the approval of
  -- its user and then tells where it listens.
  abbrev pub code_sent : Text → Bans → InitialConnection
  code_sent code bans = co_process_connection_verification_event code (
      receive phone t challenge_answer_request
        (co_connect phone pair_and_connect true (create bans)))

  abbrev pub invited : Text → Text → ℕ → Bans → InitialConnection
  invited code address port bans =
      receive phone t (device_data_for_seeking_connection (invitation address port))
        (receive phone t connection_approval_request (code_sent code bans))

  -- The peer is not banned at the listening end.
  abbrev pub IsWelcome : Bans → Type 0
  IsWelcome bans =
      is_connection_temporarily_banned t.now (build_connection_ban_key introduced.device_info) bans
      ≡ (false, bans)

  introduced_lem :
      (bans : Bans)
      → IsWelcome bans
      → introduced_to bans ≡ record (co_seek accepted (create bans)) {
        remote = introduced;
        events = pending_event introduced (generate_pairing_code t.value) ∷ [];
      }
  unfolding receive handle device_data admit co_seek
  introduced_lem bans w = rw w refl

  -- Two devices pair, where the listening end has no ban of the other, its user accepts, the code it
  -- shows is entered at the other, and its user approves. The packages that each end receives are those
  -- that the other sends; the listening end waits for a primary connection with the other, and the
  -- other connects to the address and port where it listens, as seen on the socket.
  pub pairing_completes :
      (bans bans' : Bans) (address : Text) (port : ℕ)
      → IsWelcome bans
      → ((introduced_to bans).events
          ≡ pending_event introduced (generate_pairing_code t.value) ∷ [])
        × ((listens (generate_pairing_code t.value) address port bans).packages_out
            ≡ challenge_answer_request
              ∷ (connection_approval_request
                  ∷ (device_data_for_seeking_connection (invitation address port) ∷ [])))
        × ((listens (generate_pairing_code t.value) address port bans).seeks ≡ introduced ∷ [])
        × ((invited (generate_pairing_code t.value) address port bans').packages_out
            ≡ device_data_for_connection (data_of phone.this_device pair_and_connect)
              ∷ (challenge_response (generate_pairing_code t.value) ∷ []))
        × ((invited (generate_pairing_code t.value) address port bans').connects
            ≡ seen_at phone.remote_address (invitation address port) ∷ [])
  unfolding receive handle check_response device_data_for_seeking co_seek co_connect
      co_process_connection_verification_event co_process_connection_approval_callback
      co_process_connection_pending_callback co_primary_connection_callback primary_listening
      generate_pairing_code send
  pairing_completes bans bans' address port w =
      let code = generate_pairing_code t.value in
      (
        ap (λ (c : InitialConnection). c.events) (introduced_lem bans w),
        rw (introduced_lem bans w) (rw (same_text_refl code) refl),
        rw (introduced_lem bans w) (rw (same_text_refl code) refl),
        refl,
        refl,
      )

  -- A peer that asks to pair and sends an empty code before the user accepts: the user is asked for the
  -- approval as if the code was right, and if the user approves, the pairing goes on.
  pub code_skipped :
      (bans : Bans)
      → IsWelcome bans
      → ((receive desktop t (challenge_response []) (introduced_to bans)).events
          ≡ pending_event introduced (generate_pairing_code t.value)
            ∷ (approval_requested_event introduced ∷ []))
        × ((co_process_connection_approval_callback true introduced
              (receive desktop t (challenge_response []) (introduced_to bans))).seeks
            ≡ introduced ∷ [])
  unfolding receive handle check_response co_seek co_process_connection_approval_callback send
      same_text
  code_skipped bans w = (rw (introduced_lem bans w) refl, rw (introduced_lem bans w) refl)
