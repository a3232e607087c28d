-- ===== src/ChannelPool/Connecting.antt =====
-- The pools of the two ends come up together: the ports of one, and the wait for all channels.
use libre_connect.Base.{
  ℕ, zero, suc, ◌+◌, ◌<◌, ◌≡◌, refl, ap, Bool, true, false, not, List, [], ◌∷◌, length, ne→==,
  Option, none, some, arith, All, inl, inr, Bool-cases, Option-cases, ◌↔◌, ◌≢◌, map, drop, lt→leb,
}
use native.Mathlib.Numerals.{add-one}
use libre_connect.Transfer.Channel.{ConnectionState, is_connected}
use libre_connect.ChannelPool.{
  Pool, get_elem?, all_connected, looked, wait_round, port_info, publish,
}

abbrev Up : Pool → ℕ → Type 0
Up p c = is_connected (p.status c).connection_state ≡ true

-- From index `i` on, that many places hold connected channels.
abbrev pub AllUp : ℕ → ℕ → Pool → Type 0
AllUp zero i p = Unit {0}
AllUp (suc n) i p = ((c : ℕ) × (get_elem? p.channels i ≡ some c) × Up p c) × AllUp n (i + 1) p

not_none : ◌≢◌ {A = Option Bool} none (some true)
not_none h = cc

not_false : ◌≢◌ {A = Option Bool} (some false) (some true)
not_false h = cc

all_connected-AllUp : (n i : ℕ) (p : Pool) → all_connected n i p ≡ some true → AllUp n i p
unfolding all_connected
all_connected-AllUp zero i p h = tt
all_connected-AllUp (suc n) i p h = elim (Option-cases (get_elem? p.channels i)) [
  | inl missing ↦ absurd (not_none (rw missing at h))
  | inr (c, there) ↦ elim (Bool-cases (is_connected (p.status c).connection_state)) [
    | inl up ↦ ((c, there, up), all_connected-AllUp n (i + 1) p (rw up at (rw there at h)))
    | inr down ↦ absurd (not_false (rw down at (rw there at h)))
  ]
]

AllUp-all_connected : (n i : ℕ) (p : Pool) → AllUp n i p → all_connected n i p ≡ some true
unfolding all_connected
AllUp-all_connected zero i p h = refl
AllUp-all_connected (suc n) i p ((c, there, up), rest) =
    rw there (rw up (AllUp-all_connected n (i + 1) p rest))

success :
    (expired : Bool) (o : Option Bool) (p : Pool)
    → (looked expired o p).0 ≡ some true
    → o ≡ some true
unfolding looked
success expired none p h = absurd (not_false h)
success expired (some true) p h = refl
success true (some false) p h = absurd (not_false h)
success false (some false) p h = absurd (not_none h)

-- A round of the wait ends with success exactly if the primary connection is up and all places of the
-- pool hold connected channels.
pub wait_round_lem :
    (primary : ConnectionState) (expired : Bool) (p : Pool)
    → ((wait_round primary expired p).0 ≡ some true)
      ↔ ((is_connected primary ≡ true) × AllUp p.count 0 p)
unfolding wait_round looked
wait_round_lem primary expired p = (
  λ h. elim (Bool-cases (is_connected primary)) [
    | inl up ↦ (up, all_connected-AllUp p.count 0 p (success expired _ p (rw up at h)))
    | inr down ↦ absurd (not_false (rw down at h))
  ],
  λ a. rw a.0 (rw (AllUp-all_connected p.count 0 p a.1) refl),
)

-- What the desktop does with the packages that carry ports, in their order: the channels that it tells
-- to connect, each with its port.
abbrev pub told : ℕ → (Pool → List (ℕ × ℕ) × Pool) → Option ℕ × (Bool × Pool) → List (ℕ × ℕ) × Pool
told port rest (none, (_, p)) = rest p
told port rest (some channel, (_, p)) = let (others, p') = rest p in ((channel, port) ∷ others, p')

abbrev pub deliver : List (ℕ × ℕ) → Pool → List (ℕ × ℕ) × Pool
deliver [] p = ([], p)
deliver ((i, port) ∷ sent) p = told port (deliver sent) (port_info i p)

abbrev pub zip : List ℕ → List ℕ → List (ℕ × ℕ)
zip [] ys = []
zip (x ∷ xs) [] = []
zip (x ∷ xs) (y ∷ ys) = (x, y) ∷ zip xs ys

-- A listener has got a port, and the primary connection is up when it is published.
abbrev pub IsOpen : ℕ × ConnectionState → Type 0
IsOpen (port, primary) = (port ≢ 0) × (is_connected primary ≡ true)

abbrev pub numbers : List (ℕ × ConnectionState) → List ℕ
numbers = map (λ x. x.0)

get_elem?-drop :
    (xs : List ℕ) (i x : ℕ) (rest : List ℕ)
    → drop i xs ≡ x ∷ rest
    → (get_elem? xs i ≡ some x) × ((drop (i + 1) xs ≡ rest) × (i < length xs))
get_elem?-drop [] zero x rest h = cc
get_elem?-drop [] (suc i) x rest h = cc
get_elem?-drop (y ∷ ys) zero x rest h = ground arith
get_elem?-drop (y ∷ ys) (suc i) x rest h =
    let (a, (b, c)) = get_elem?-drop ys i x rest h in
    (a, (rw add-one (rw add-one at b), omega arith))

port_info_lem :
    (i channel : ℕ) (p : Pool)
    → i < p.count
    → get_elem? p.channels i ≡ some channel
    → port_info i p
      ≡ (some channel, (not p.waiting_for_connections, record p { waiting_for_connections = true }))
unfolding port_info
port_info_lem i channel p l e = rw (lt→leb i p.count l) (rw e refl)

publish-deliver :
    (ports : List (ℕ × ConnectionState)) (i : ℕ) (cs : List ℕ) (phone desktop : Pool)
    → All IsOpen ports
    → drop i desktop.channels ≡ cs
    → length ports ≡ length cs
    → desktop.count ≡ length desktop.channels
    → (deliver (publish i ports phone).0 desktop).0 ≡ zip cs (numbers ports)
unfolding publish
publish-deliver [] i [] phone desktop o d l n = refl
publish-deliver [] i (c ∷ cs) phone desktop o d l n = absurd (omega arith)
publish-deliver (x ∷ ports) i [] phone desktop o d l n = absurd (omega arith)
publish-deliver ((port, primary) ∷ ports) i (c ∷ cs) phone desktop o d l n =
    let (there, (next, below)) = get_elem?-drop desktop.channels i c cs d in
    rw (ne→== port 0 o.0.0) (
      rw o.0.1 (
        rw (port_info_lem i c desktop (omega arith) there) (
          ap (λ (xs : List (ℕ × ℕ)). (c, port) ∷ xs)
            (publish-deliver ports (i + 1) cs phone
              (record desktop { waiting_for_connections = true }) o.1 next (omega arith) n))))

-- Where all listeners of the phone have got a port and the primary connection stays up, the desktop,
-- whose pool has as many channels, tells each of its channels to connect to the port of the listener
-- at the same index.
pub ports_arrive :
    (ports : List (ℕ × ConnectionState)) (phone desktop : Pool)
    → All IsOpen ports
    → length ports ≡ length desktop.channels
    → desktop.count ≡ length desktop.channels
    → (deliver (publish 0 ports phone).0 desktop).0 ≡ zip desktop.channels (numbers ports)
ports_arrive ports phone desktop o l n =
    publish-deliver ports 0 desktop.channels phone desktop o refl l n
