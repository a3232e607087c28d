-- ===== src/Pairing/Approval.antt =====
-- What runs on the strand of a connection, in any order: packages, answers of the user interface,
-- coroutines that the code spawned, and the ends of waits.
use libre_connect.Base.{
  ℕ, ◌-◌, ◌≡◌, refl, sym, ap, ◌∙◌, Bool, true, false, not, ◌||◌, ◌&&◌, List, [], ◌∷◌, ◌++◌,
  append_assoc, append-nil, ◌==◌, if◌then◌else◌, same_text, Bool-cases, inl, inr,
}
use libre_connect.Wire.Text.{Text}
use libre_connect.Transfer.Channel.{
  ConnectionState, disconnected, disconnecting, connecting, connected, is_connected,
}
use libre_connect.Wire.Devices.{InitialConnectionData}
use libre_connect.Pairing.{
  is_pair_and_connect, is_connect_with_pair, Message, device_data_for_connection,
  device_data_for_seeking_connection, challenge_answer_request, challenge_response,
  challenge_wrong_answer, device_is_unpaired, device_connect_cooldown, connection_approval_request,
  connection_approval_denied, unreadable, unknown, StreamError, Task, pending_callback,
  disconnecting_task, InitialConnection, Surroundings, Moment, build_connection_ban_key,
  is_paired_device_known, send, begin_disconnect, end_disconnect,
}
use libre_connect.Pairing.Bans.{is_connection_temporarily_banned}
use libre_connect.Pairing.Dialogue.{
  seen_at, reject_banned, admit, device_data, device_data_for_seeking, wrong_answer, check_response,
  handle, receive, receive_failed, co_process_connection_verification_event,
  co_process_connection_approval_callback, co_process_connection_pending_callback,
  co_primary_connection_callback, primary_listening,
}

pub data Input : Type 0 where
  arrives : Moment → Message → Input
  stream_fails : StreamError → Input
  pending_answer : (result : Bool) (d : InitialConnectionData) (challenge : Text) → Input
  approval_answer : (approved : Bool) (d : InitialConnectionData) → Input
  code_entered : Text → Input
  listening : (d : InitialConnectionData) (address : Text) (port : ℕ) → Input
  spawned_runs : Input
  drained : Input

abbrev pub run_task : Task → InitialConnection → InitialConnection
run_task (pending_callback d) c = co_process_connection_pending_callback true d [] c
run_task disconnecting_task c = begin_disconnect c

abbrev pub run_first : List Task → InitialConnection → InitialConnection
run_first [] c = c
run_first (t ∷ ts) c = run_task t (record c { spawned = ts })

abbrev pub step : Surroundings → Input → InitialConnection → InitialConnection
step s (arrives t m) c = receive s t m c
step s (stream_fails e) c = receive_failed e c
step s (pending_answer result d challenge) c =
    co_process_connection_pending_callback result d challenge c
step s (approval_answer approved d) c = co_process_connection_approval_callback approved d c
step s (code_entered code) c = co_process_connection_verification_event code c
step s (listening d address port) c = primary_listening s d address port c
step s spawned_runs c = run_first c.spawned c
step s drained c = end_disconnect c

abbrev pub run : Surroundings → List Input → InitialConnection → InitialConnection
run s [] c = c
run s (i ∷ inputs) c = run s inputs (step s i c)

-- The data of a call or an answer, if it is about pairing.
abbrev pub if_pairing : InitialConnectionData → List InitialConnectionData
if_pairing d = if is_pair_and_connect d.initial_connection_mode then d ∷ [] else []

abbrev pub pairing : List InitialConnectionData → List InitialConnectionData
pairing [] = []
pairing (d ∷ ds) = if_pairing d ++ pairing ds

-- The pairings that the user approves.
abbrev pub approved_by : Input → List InitialConnectionData
approved_by (approval_answer true d) = if_pairing d
approved_by _ = []

abbrev pub approved : List Input → List InitialConnectionData
approved [] = []
approved (i ∷ inputs) = approved_by i ++ approved inputs

-- What a package invites to.
abbrev pub invitation_in : Surroundings → Message → List InitialConnectionData
invitation_in s (device_data_for_seeking_connection d) = seen_at s.remote_address d ∷ []
invitation_in s _ = []

-- The invitations of the peer that are read, as they are seen on the socket.
abbrev pub invited_by : Surroundings → Input → InitialConnection → List InitialConnectionData
invited_by s (arrives t m) c =
    if not c.receiving
    then []
    else if not (is_connected c.connection_state)
    then []
    else invitation_in s m
invited_by s _ c = []

abbrev pub invited : Surroundings → List Input → InitialConnection → List InitialConnectionData
invited s [] c = []
invited s (i ∷ inputs) c = invited_by s i c ++ invited s inputs (step s i c)

pairing-append :
    (xs : List InitialConnectionData) (d : InitialConnectionData)
    → pairing (xs ++ (d ∷ [])) ≡ pairing xs ++ if_pairing d
pairing-append [] d = append-nil (if_pairing d)
pairing-append (x ∷ xs) d =
    ap (λ (ys : List InitialConnectionData). if_pairing x ++ ys) (pairing-append xs d)
    ∙ sym (append_assoc (if_pairing x) (pairing xs) (if_pairing d))

-- A property of both branches.
pub if-elim {ℓ} :
    {A : Type 0} (P : A → Type ℓ) (b : Bool) (x y : A) → P x → P y → P (if b then x else y)
if-elim P true x y h k = h
if-elim P false x y h k = k

-- The same calls of `SeekPrimary` for pairings, and of `ConnectPrimary`.
abbrev SameCalls : InitialConnection → InitialConnection → Type 0
SameCalls c c' = (pairing c'.seeks ≡ pairing c.seeks) × (c'.connects ≡ c.connects)

-- Calls of `SeekPrimary` for the pairings `ds` and of `ConnectPrimary` for `es` have been added.
abbrev Calls :
    List InitialConnectionData
    → List InitialConnectionData
    → InitialConnection
    → InitialConnection
    → Type 0
Calls ds es c c' = (pairing c'.seeks ≡ pairing c.seeks ++ ds) × (c'.connects ≡ c.connects ++ es)

unchanged : (c c' : InitialConnection) → SameCalls c c' → Calls [] [] c c'
unchanged c c' h = (h.0 ∙ sym (append-nil (pairing c.seeks)), h.1 ∙ sym (append-nil c.connects))

admit-SameCalls :
    (s : Surroundings) (value : ℕ) (d : InitialConnectionData) (c : InitialConnection)
    → SameCalls c (admit s value d c)
unfolding admit send
admit-SameCalls s value d c =
    let with_pair = is_connect_with_pair d.initial_connection_mode in
    if-elim (SameCalls c) (with_pair && not (is_paired_device_known s d.device_info)) _ _
      (refl, refl) (if-elim (SameCalls c) with_pair _ _ (refl, refl) (refl, refl))

device_data-SameCalls :
    (s : Surroundings) (t : Moment) (d : InitialConnectionData) (c : InitialConnection)
    → SameCalls c (device_data s t d c)
unfolding device_data reject_banned send
device_data-SameCalls s t d c =
    elim (Bool-cases
      (is_connection_temporarily_banned t.now (build_connection_ban_key d.device_info) c.bans).0) [
        | inl banned ↦ rw banned (refl, refl)
        | inr free ↦ rw free (admit-SameCalls s t.value d _)
      ]

handle-Calls :
    (s : Surroundings) (t : Moment) (m : Message) (c : InitialConnection)
    → Calls [] (invitation_in s m) c (handle s t m c)
unfolding handle device_data_for_seeking check_response wrong_answer send
handle-Calls s t (device_data_for_connection d) c =
    unchanged c (handle s t (device_data_for_connection d) c)
      (device_data-SameCalls s t (seen_at s.remote_address d) c)
handle-Calls s t (challenge_response response) c =
    unchanged c (handle s t (challenge_response response) c) (
      if-elim (SameCalls c) (not (same_text response c.challenge_result)) _ _
        (if-elim (SameCalls c) (c.challenge_left_tries - 1 == 0) _ _ (refl, refl) (refl, refl))
        (refl, refl))
handle-Calls s t (device_data_for_seeking_connection d) c =
    (sym (append-nil (pairing c.seeks)), refl)
handle-Calls s t (challenge_wrong_answer tries) c =
    unchanged c (handle s t (challenge_wrong_answer tries) c) ((refl, refl))
handle-Calls s t connection_approval_request c =
    unchanged c (handle s t connection_approval_request c) ((refl, refl))
handle-Calls s t connection_approval_denied c =
    unchanged c (handle s t connection_approval_denied c) ((refl, refl))
handle-Calls s t challenge_answer_request c =
    unchanged c (handle s t challenge_answer_request c) ((refl, refl))
handle-Calls s t (device_is_unpaired device_id) c =
    unchanged c (handle s t (device_is_unpaired device_id) c) ((refl, refl))
handle-Calls s t (device_connect_cooldown duration) c =
    unchanged c (handle s t (device_connect_cooldown duration) c) ((refl, refl))
handle-Calls s t unreadable c = unchanged c (handle s t unreadable c) ((refl, refl))
handle-Calls s t unknown c = unchanged c (handle s t unknown c) ((refl, refl))

receive-Calls :
    (s : Surroundings) (t : Moment) (m : Message) (c : InitialConnection)
    → Calls [] (invited_by s (arrives t m) c) c (receive s t m c)
unfolding receive
receive-Calls s t m c =
    choice (not c.receiving) (not (is_connected c.connection_state)) (handle s t m c)
      (handle-Calls s t m c)
  where
    choice :
        (b k : Bool) (c' : InitialConnection)
        → Calls [] (invitation_in s m) c c'
        → Calls []
            (if b then [] else if k then [] else invitation_in s m)
            c
            (if b then c else if k then record c { receiving = false } else c')
    choice true k c' h = unchanged c c (refl, refl)
    choice false true c' h = unchanged c (record c { receiving = false }) (refl, refl)
    choice false false c' h = h

-- Where the answer is about pairing, no code means no seek.
pending-SameCalls :
    (result : Bool) (d : InitialConnectionData) (challenge : Text) (c : InitialConnection)
    → SameCalls c (co_process_connection_pending_callback result d challenge c)
unfolding co_process_connection_pending_callback send
pending-SameCalls false d challenge c = (refl, refl)
pending-SameCalls true d (x ∷ challenge) c =
    if-elim (SameCalls c) (is_pair_and_connect d.initial_connection_mode && false) _ _ (refl, refl)
      (refl, refl)
pending-SameCalls true d [] c = elim (Bool-cases (is_pair_and_connect d.initial_connection_mode)) [
  | inl pairs ↦ rw pairs (refl, refl)
  | inr other ↦ rw other (
    pairing-append c.seeks d
        ∙ ap (λ (b : Bool). pairing c.seeks ++ (if b then d ∷ [] else [])) other
        ∙ append-nil (pairing c.seeks),
    refl,
  )
]

begin_disconnect-SameCalls : (c : InitialConnection) → SameCalls c (begin_disconnect c)
unfolding begin_disconnect
begin_disconnect-SameCalls c = closing c.connection_state refl
  where
    closing : (k : ConnectionState) → c.connection_state ≡ k → SameCalls c (begin_disconnect c)
    closing disconnected e = rw e (refl, refl)
    closing disconnecting e = rw e (refl, refl)
    closing connecting e = rw e (refl, refl)
    closing connected e = rw e (refl, refl)

step-Calls :
    (s : Surroundings) (i : Input) (c : InitialConnection)
    → Calls (approved_by i) (invited_by s i c) c (step s i c)
unfolding receive_failed co_process_connection_verification_event
    co_process_connection_approval_callback primary_listening co_primary_connection_callback
    end_disconnect send
step-Calls s (arrives t m) c = receive-Calls s t m c
step-Calls s (stream_fails e) c = unchanged c (step s (stream_fails e) c) (
    if-elim (SameCalls c)
      (c.final_handshake_completed || c.received_terminal_handshake_reason
        || c.suppress_disconnect_errors)
      _ _ (refl, refl) (refl, refl))
step-Calls s (pending_answer result d challenge) c =
    unchanged c (step s (pending_answer result d challenge) c)
      (pending-SameCalls result d challenge c)
step-Calls s (approval_answer true d) c = (pairing-append c.seeks d, sym (append-nil c.connects))
step-Calls s (approval_answer false d) c =
    unchanged c (step s (approval_answer false d) c) (refl, refl)
step-Calls s (code_entered code) c = unchanged c (step s (code_entered code) c) (refl, refl)
step-Calls s (listening d address port) c =
    unchanged c (step s (listening d address port) c) (refl, refl)
step-Calls s spawned_runs c = unchanged c (step s spawned_runs c) (first c.spawned)
  where
    first : (ts : List Task) → SameCalls c (run_first ts c)
    first [] = (refl, refl)
    first (pending_callback d ∷ ts) = pending-SameCalls true d [] (record c { spawned = ts })
    first (disconnecting_task ∷ ts) = begin_disconnect-SameCalls (record c { spawned = ts })
step-Calls s drained c = unchanged c (step s drained c) (refl, refl)

-- Whatever the peer sends and in whatever order things run: `SeekPrimary` is called for exactly the
-- pairings that the user approves, in that order. `ConnectPrimary` is called for exactly the
-- invitations of the peer that are read while the connection is open, whether or not the user was
-- asked.
pub run-approved :
    (s : Surroundings) (inputs : List Input) (c : InitialConnection)
    → (pairing (run s inputs c).seeks ≡ pairing c.seeks ++ approved inputs)
      × ((run s inputs c).connects ≡ c.connects ++ invited s inputs c)
run-approved s [] c = (sym (append-nil (pairing c.seeks)), sym (append-nil c.connects))
run-approved s (i ∷ inputs) c =
    let (seeks, connects) = run-approved s inputs (step s i c) in
    let (seek, connect) = step-Calls s i c in
    (
      seeks
          ∙ ap (λ (ds : List InitialConnectionData). ds ++ approved inputs) seek
          ∙ append_assoc (pairing c.seeks) (approved_by i) (approved inputs),
      connects
          ∙ ap (λ (ds : List InitialConnectionData). ds ++ invited s inputs (step s i c)) connect
          ∙ append_assoc c.connects (invited_by s i c) (invited s inputs (step s i c)),
    )
