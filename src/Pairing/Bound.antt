-- ===== src/Pairing/Bound.antt =====
-- How often a peer may guess.
use libre_connect.Base.{
  ℕ, ◌+◌, ◌-◌, ◌*◌, ◌≤◌, ◌≡◌, refl, Bool, true, false, not, ◌||◌, ◌&&◌, List, [], ◌∷◌, ◌++◌, ◌==◌,
  ==→eq, ==→ne, if◌then◌else◌, same_text, Bool-cases, inl, inr, arith,
}
use libre_connect.Wire.Text.{Text, is_empty}
use libre_connect.Transfer.Channel.{
  ConnectionState, disconnected, disconnecting, connecting, connected, is_connected,
}
use libre_connect.Wire.Devices.{InitialConnectionData}
use libre_connect.Pairing.{
  is_pair_and_connect, is_connect_with_pair, Message, device_data_for_connection,
  device_data_for_seeking_connection, challenge_answer_request, challenge_response,
  challenge_wrong_answer, device_is_unpaired, device_connect_cooldown, connection_approval_request,
  connection_approval_denied, unreadable, unknown, Task, pending_callback, disconnecting_task,
  InitialConnection, Surroundings, Moment, Bans, build_connection_ban_key, is_paired_device_known,
  create, send, begin_disconnect, end_disconnect,
}
use libre_connect.Pairing.Bans.{is_connection_temporarily_banned, ban_duration}
use libre_connect.Pairing.Dialogue.{
  seen_at, reject_banned, admit, device_data, device_data_for_seeking, wrong_answer, check_response,
  handle, receive, receive_failed, max_number_of_verification_tries, accepted, co_seek,
  co_process_connection_verification_event, co_process_connection_approval_callback,
  co_process_connection_pending_callback, co_primary_connection_callback, primary_listening,
}
use libre_connect.Pairing.Approval.{
  Input, arrives, stream_fails, pending_answer, approval_answer, code_entered, listening,
  spawned_runs, drained, run_first, step, run, if-elim,
}

abbrev pub is_wrong_answer : Message → ℕ
is_wrong_answer (challenge_wrong_answer tries) = 1
is_wrong_answer _ = 0

-- The wrong codes that a peer was told of.
abbrev pub wrong_answers : List Message → ℕ
wrong_answers [] = 0
wrong_answers (m ∷ ms) = is_wrong_answer m + wrong_answers ms

-- A device is let in by the user, or because it is paired.
abbrev pub lets_in : Input → InitialConnection → ℕ
lets_in (pending_answer true d challenge) c = 1
lets_in spawned_runs c = first c.spawned
  where
    first : List Task → ℕ
    first (pending_callback d ∷ ts) = 1
    first _ = 0
lets_in _ c = 0

abbrev pub times_let_in : Surroundings → List Input → InitialConnection → ℕ
times_let_in s [] c = 0
times_let_in s (i ∷ inputs) c = lets_in i c + times_let_in s inputs (step s i c)

abbrev running : Bool → ℕ
running true = 1
running false = 0

-- The wrong answers so far and those that may still come.
abbrev weight : InitialConnection → ℕ
weight c = wrong_answers c.packages_out + c.challenge_left_tries + running c.receiving

wrong_answers-append :
    (xs : List Message) (m : Message)
    → wrong_answers (xs ++ (m ∷ [])) ≡ wrong_answers xs + is_wrong_answer m
wrong_answers-append [] m = omega arith
wrong_answers-append (x ∷ xs) m = omega (arith, wrong_answers-append xs m)

abbrev Bounded : ℕ → InitialConnection → Type 0
Bounded n c = weight c ≤ n

-- A package that is no wrong answer is sent, and the coroutine goes on or ends.
sends-Bounded :
    (xs : List Message) (m : Message) (tries : ℕ) (b : Bool)
    → is_wrong_answer m ≡ 0
    → wrong_answers (xs ++ (m ∷ [])) + tries + running b ≤ wrong_answers xs + tries + running b
sends-Bounded xs m tries b e = omega (arith, wrong_answers-append xs m, e)

ends-Bounded :
    (xs : List Message) (m : Message) (tries : ℕ) (b : Bool)
    → is_wrong_answer m ≡ 0
    → wrong_answers (xs ++ (m ∷ [])) + tries + 0 ≤ wrong_answers xs + tries + running b
ends-Bounded xs m tries b e = omega (arith, wrong_answers-append xs m, e)

stops-Bounded :
    (c : InitialConnection) → wrong_answers c.packages_out + c.challenge_left_tries + 0 ≤ weight c
stops-Bounded c = omega arith

admit-Bounded :
    (s : Surroundings) (value : ℕ) (d : InitialConnectionData) (c : InitialConnection)
    → Bounded (weight c) (admit s value d c)
unfolding admit send
admit-Bounded s value d c =
    let with_pair = is_connect_with_pair d.initial_connection_mode in
    if-elim (Bounded (weight c)) (with_pair && not (is_paired_device_known s d.device_info)) _ _
      (ends-Bounded c.packages_out (device_is_unpaired (s.to_string s.this_device.device_id))
        c.challenge_left_tries c.receiving refl)
      (if-elim (Bounded (weight c)) with_pair _ _ (omega arith) (omega arith))

device_data-Bounded :
    (s : Surroundings) (t : Moment) (d : InitialConnectionData) (c : InitialConnection)
    → Bounded (weight c) (device_data s t d c)
unfolding device_data reject_banned send
device_data-Bounded s t d c =
    let key = build_connection_ban_key d.device_info in
    let look = is_connection_temporarily_banned t.now key c.bans in
    elim (Bool-cases look.0) [
      | inl banned ↦ rw banned (
          ends-Bounded c.packages_out (device_connect_cooldown (ban_duration t.later key look.1).0)
            c.challenge_left_tries c.receiving refl)
      | inr free ↦ rw free (admit-Bounded s t.value d _)
    ]

wrong_answer-Bounded :
    (now : ℕ) (c : InitialConnection)
    → c.receiving ≡ true
    → Bounded (weight c) (wrong_answer now (c.challenge_left_tries - 1) c)
unfolding wrong_answer send
wrong_answer-Bounded now c r =
    let tries = c.challenge_left_tries - 1 in
    let one_more = wrong_answers-append c.packages_out (challenge_wrong_answer tries) in
    let runs : running c.receiving ≡ 1 = rw r refl in
    elim (Bool-cases (tries == 0)) [
      | inl last ↦ rw last (omega (arith, one_more, runs, ==→eq tries 0 last))
      | inr more ↦ rw more (omega (arith, one_more, runs, left more))
    ]
  where
    left : (c.challenge_left_tries - 1 == 0) ≡ false → 1 ≤ c.challenge_left_tries - 1
    left e = ground (arith, ==→ne (c.challenge_left_tries - 1) 0 e)

handle-Bounded :
    (s : Surroundings) (t : Moment) (m : Message) (c : InitialConnection)
    → c.receiving ≡ true
    → Bounded (weight c) (handle s t m c)
unfolding handle device_data_for_seeking check_response send
handle-Bounded s t (device_data_for_connection d) c r =
    device_data-Bounded s t (seen_at s.remote_address d) c
handle-Bounded s t (device_data_for_seeking_connection d) c r = stops-Bounded c
handle-Bounded s t (challenge_response response) c r =
    if-elim (Bounded (weight c)) (not (same_text response c.challenge_result)) _ _
      (wrong_answer-Bounded t.now c r)
      (sends-Bounded c.packages_out connection_approval_request c.challenge_left_tries c.receiving
        refl)
handle-Bounded s t (challenge_wrong_answer tries) c r = omega arith
handle-Bounded s t connection_approval_request c r = omega arith
handle-Bounded s t connection_approval_denied c r = omega arith
handle-Bounded s t challenge_answer_request c r = omega arith
handle-Bounded s t (device_is_unpaired device_id) c r = omega arith
handle-Bounded s t (device_connect_cooldown duration) c r = omega arith
handle-Bounded s t unreadable c r = stops-Bounded c
handle-Bounded s t unknown c r = omega arith

receive-Bounded :
    (s : Surroundings) (t : Moment) (m : Message) (c : InitialConnection)
    → Bounded (weight c) (receive s t m c)
unfolding receive
receive-Bounded s t m c = unless c.receiving (handle s t m c) (handle-Bounded s t m c)
  where
    unless :
        (b : Bool) (c' : InitialConnection)
        → (b ≡ true → Bounded (weight c) c')
        → Bounded (weight c) (
            if not b
            then c
            else if not (is_connected c.connection_state)
            then record c { receiving = false }
            else c')
    unless false c' h = omega arith
    unless true c' h =
        if-elim (Bounded (weight c)) (not (is_connected c.connection_state)) _ _ (stops-Bounded c)
          (h refl)

pending-Bounded :
    (result : Bool) (d : InitialConnectionData) (challenge : Text) (c : InitialConnection)
    → Bounded
        (weight c + (if result then 5 else 0))
        (co_process_connection_pending_callback result d challenge c)
unfolding co_process_connection_pending_callback send
pending-Bounded false d challenge c = omega arith
pending-Bounded true d challenge c =
    if-elim (Bounded (weight c + 5))
      (is_pair_and_connect d.initial_connection_mode && is_empty challenge) _ _ (omega arith)
      (if-elim (Bounded (weight c + 5)) (not (is_empty challenge)) _ _
        (omega (arith, wrong_answers-append c.packages_out challenge_answer_request)) (omega arith))

begin_disconnect-Bounded : (c : InitialConnection) → Bounded (weight c) (begin_disconnect c)
unfolding begin_disconnect
begin_disconnect-Bounded c = closing c.connection_state refl
  where
    closing :
        (k : ConnectionState) → c.connection_state ≡ k → Bounded (weight c) (begin_disconnect c)
    closing disconnected e = rw e (omega arith)
    closing disconnecting e = rw e (omega arith)
    closing connecting e = rw e (omega arith)
    closing connected e = rw e (omega arith)

step-Bounded :
    (s : Surroundings) (i : Input) (c : InitialConnection)
    → Bounded (weight c + 5 * lets_in i c) (step s i c)
unfolding receive_failed co_process_connection_verification_event
    co_process_connection_approval_callback primary_listening co_primary_connection_callback
    end_disconnect send
step-Bounded s (arrives t m) c = omega (arith, receive-Bounded s t m c)
step-Bounded s (stream_fails e) c =
    if-elim (Bounded (weight c + 0))
      (c.final_handshake_completed || c.received_terminal_handshake_reason
        || c.suppress_disconnect_errors)
      _ _ (omega arith) (omega arith)
step-Bounded s (pending_answer true d challenge) c =
    omega (arith, pending-Bounded true d challenge c)
step-Bounded s (pending_answer false d challenge) c =
    omega (arith, pending-Bounded false d challenge c)
step-Bounded s (approval_answer true d) c = omega arith
step-Bounded s (approval_answer false d) c =
    omega (arith, wrong_answers-append c.packages_out connection_approval_denied)
step-Bounded s (code_entered code) c =
    omega (arith, wrong_answers-append c.packages_out (challenge_response code))
step-Bounded s (listening d address port) c = omega (
  arith,
  wrong_answers-append c.packages_out (
      device_data_for_seeking_connection (record d {
        device_info = record s.this_device { device_address = address; device_address_port = port };
      })),
)
step-Bounded s spawned_runs c = first c.spawned refl
  where
    first :
        (ts : List Task)
        → c.spawned ≡ ts
        → Bounded (weight c + 5 * lets_in spawned_runs c) (run_first c.spawned c)
    first [] e = rw e (omega arith)
    first (pending_callback d ∷ ts) e =
        rw e (omega (arith, pending-Bounded true d [] (record c { spawned = ts })))
    first (disconnecting_task ∷ ts) e =
        rw e (omega (arith, begin_disconnect-Bounded (record c { spawned = ts })))
step-Bounded s drained c = omega arith

run-Bounded :
    (s : Surroundings) (inputs : List Input) (c : InitialConnection)
    → Bounded (weight c + 5 * times_let_in s inputs c) (run s inputs c)
run-Bounded s [] c = omega arith
run-Bounded s (i ∷ inputs) c = omega (arith, run-Bounded s inputs (step s i c), step-Bounded s i c)

-- On a connection that was just accepted, whatever the peer sends and in whatever order things run: the
-- peer is told at most five wrong codes each time that it is let in, and one more.
pub guesses-bounded :
    (s : Surroundings) (bans : Bans) (inputs : List Input)
    → wrong_answers (run s inputs (co_seek accepted (create bans))).packages_out
      ≤ max_number_of_verification_tries * times_let_in s inputs (co_seek accepted (create bans))
        + 1
unfolding co_seek
guesses-bounded s bans inputs = omega (arith, run-Bounded s inputs (co_seek accepted (create bans)))
