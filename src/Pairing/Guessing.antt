-- ===== src/Pairing/Guessing.antt =====
-- Guessing the code of a pairing.
use libre_connect.Base.{
  ℕ, zero, suc, ◌-◌, ◌<◌, ◌≡◌, refl, sym, ap, ◌∙◌, Bool, true, false, not, List, [], ◌∷◌, ◌++◌,
  append_assoc, append-nil, length, ne→==, if◌then◌else◌, same_text, same_text_refl, All, arith,
}
use libre_connect.Wire.Text.{Text}
use libre_connect.Transfer.Channel.{is_connected}
use libre_connect.Pairing.{
  Message, challenge_response, challenge_wrong_answer, connection_approval_request,
  approval_requested_event, InitialConnection, Surroundings, Moment, generate_pairing_code,
  build_connection_ban_key, send, emit, Bans,
}
use libre_connect.Pairing.Bans.{ban_connection_temporarily}
use libre_connect.Pairing.Dialogue.{wrong_answer, check_response, handle, receive}

-- `CoReceive` is at its next package.
abbrev pub IsReceiving : InitialConnection → Type 0
IsReceiving c = (c.receiving ≡ true) × (is_connected c.connection_state ≡ true)

-- The peer sends the guesses one after the other.
abbrev pub guess_all : Surroundings → List (Moment × Text) → InitialConnection → InitialConnection
guess_all s [] c = c
guess_all s ((t, guess) ∷ guesses) c =
    guess_all s guesses (receive s t (challenge_response guess) c)

abbrev pub AllWrong : Text → List (Moment × Text) → Type 0
AllWrong code = All (λ (g : Moment × Text). same_text g.1 code ≡ false)

-- The answers to wrong guesses.
abbrev pub answers : ℕ → List (Moment × Text) → List Message
answers tries [] = []
answers tries (guess ∷ guesses) = challenge_wrong_answer (tries - 1) ∷ answers (tries - 1) guesses

-- The state behind wrong guesses that do not use up the tries.
abbrev pub guessed : List (Moment × Text) → InitialConnection → InitialConnection
guessed guesses c = record c {
  challenge_left_tries = c.challenge_left_tries - length guesses;
  packages_out = c.packages_out ++ answers c.challenge_left_tries guesses;
}

receive_open :
    (s : Surroundings) (t : Moment) (m : Message) (c : InitialConnection)
    → IsReceiving c
    → receive s t m c ≡ handle s t m c
unfolding receive
receive_open s t m c (r, k) = rw (r, k) refl

one_wrong :
    (s : Surroundings) (t : Moment) (guess : Text) (c : InitialConnection)
    → IsReceiving c
    → same_text guess c.challenge_result ≡ false
    → receive s t (challenge_response guess) c ≡ wrong_answer t.now (c.challenge_left_tries - 1) c
unfolding handle check_response
one_wrong s t guess c r w =
    receive_open s t (challenge_response guess) c r
    ∙ ap
        (λ (b : Bool).
          if not b
          then wrong_answer t.now (c.challenge_left_tries - 1) c
          else emit (approval_requested_event c.remote) (send connection_approval_request c))
        w

not_last :
    (now tries : ℕ) (c : InitialConnection)
    → 0 < tries
    → wrong_answer now tries c ≡ record c {
      challenge_left_tries = tries;
      packages_out = c.packages_out ++ (challenge_wrong_answer tries ∷ []);
    }
unfolding wrong_answer send
not_last now tries c l = rw (ne→== tries 0 (λ e. absurd (omega (arith, e)))) refl

guess_all_lem :
    (s : Surroundings) (guesses : List (Moment × Text)) (c : InitialConnection)
    → IsReceiving c
    → AllWrong c.challenge_result guesses
    → length guesses < c.challenge_left_tries
    → guess_all s guesses c ≡ guessed guesses c
guess_all_lem s [] c r w l =
    let none_used : c.challenge_left_tries ≡ c.challenge_left_tries - 0 = omega arith in
    λ i. record c {
      challenge_left_tries = none_used i;
      packages_out = sym (append-nil c.packages_out) i;
    }
guess_all_lem s ((t, guess) ∷ guesses) c r w l =
    let tries = c.challenge_left_tries - 1 in
    let c' : InitialConnection = record c {
      challenge_left_tries = tries;
      packages_out = c.packages_out ++ (challenge_wrong_answer tries ∷ []);
    } in
    let less : tries - length guesses ≡ c.challenge_left_tries - suc (length guesses) =
      omega arith in
    let first : receive s t (challenge_response guess) c ≡ c' =
      one_wrong s t guess c r w.0 ∙ not_last t.now tries c (omega (arith, l)) in
    ap (guess_all s guesses) first ∙ guess_all_lem s guesses c' r w.1 (omega (arith, l)) ∙ (λ i.
      record c {
        challenge_left_tries = less i;
        packages_out =
            append_assoc c.packages_out (challenge_wrong_answer tries ∷ []) (answers tries guesses)
              i;
      })

-- On a connection that is receiving: a peer that guesses wrongly less often than there are tries, and
-- then sends the code, gets the numbers of tries that are left and then the request for the approval,
-- for which the user is asked; nothing else changes.
pub code_guessed :
    (s : Surroundings) (guesses : List (Moment × Text)) (t : Moment) (c : InitialConnection)
    → IsReceiving c
    → AllWrong c.challenge_result guesses
    → length guesses < c.challenge_left_tries
    → receive s t (challenge_response c.challenge_result) (guess_all s guesses c)
      ≡ emit
          (approval_requested_event c.remote)
          (send connection_approval_request (guessed guesses c))
unfolding handle check_response
code_guessed s guesses t c r w l =
    ap (receive s t (challenge_response c.challenge_result)) (guess_all_lem s guesses c r w l)
    ∙ receive_open s t (challenge_response c.challenge_result) (guessed guesses c) r
    ∙ ap
        (λ (b : Bool).
          if not b
          then wrong_answer t.now ((guessed guesses c).challenge_left_tries - 1) (guessed guesses c)
          else emit (approval_requested_event c.remote)
              (send connection_approval_request (guessed guesses c)))
        (same_text_refl c.challenge_result)

-- The ban of a peer that has used up its tries.
abbrev pub banned_until : Moment → InitialConnection → Bans
banned_until t c =
    ban_connection_temporarily t.now (build_connection_ban_key c.remote.device_info) c.bans

-- Two numbers below a million have different codes.
pub generate_pairing_code_injective :
    (m n : ℕ)
    → m < 1000000
    → n < 1000000
    → generate_pairing_code m ≡ generate_pairing_code n
    → m ≡ n
unfolding generate_pairing_code
generate_pairing_code_injective m n l l' e =
    let digit = λ (i : ℕ). ap (nth i) e in
    omega (arith, l, l', digit 0, digit 1, digit 2, digit 3, digit 4, digit 5)
  where
    nth : ℕ → Text → ℕ
    nth i [] = 0
    nth zero (c ∷ cs) = c
    nth (suc i) (c ∷ cs) = nth i cs
