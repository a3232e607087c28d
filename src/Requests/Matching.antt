-- ===== src/Requests/Matching.antt =====
-- Requests, responses, timeouts and cancellations in any order: nobody gets the response of another
-- request.
use libre_connect.Base.{
  ℕ, ◌≡◌, refl, sym, subst, Bool, true, false, List, [], ◌∷◌, ◌++◌, ◌==◌, Option, none, some,
  Result, ok, err, All, All-append, All-split, All-insert, Bool-cases, inl, inr, ==→eq,
  Option-cases,
}
use libre_connect.Wire.Text.{size_t}
use libre_connect.Package.{Package, Args, get_value}
use libre_connect.Connection.{Connection, get_package, heartbeat}
use libre_connect.Transfer.Channel.{is_connected}
use libre_connect.ConcurrentMap.{ConcurrentUnorderedMap, get, insert_or_assign, erase, pop, pop_all}
use libre_connect.Requests.{
  Manager, Processing, idle, inserting, signalling, signal, begin_request, request_sent, wait_look,
  woken, finish_request, cancel_pending_requests, signal_all, is_response, process, process_step,
  response, bad_package, handle, try_consume, first_of,
}

-- A coroutine in `SendRequest`: at the wait, behind it, or returned.
pub data Task : Type 0 where
  waiting : (id flag : ℕ) → Task
  finishing : (success : Bool) (id : ℕ) → Task
  ended : (id : ℕ) (result : Option Package) → Task

pub record System : Type 0 where
  pub manager : Manager
  pub processing : Processing
  pub tasks : List Task

abbrev pub begun : Result (Option (ℕ × ℕ)) → List Task
begun (ok (some (id, flag))) = waiting id flag ∷ []
begun (ok none) = []
begun (err e) = []

abbrev pub after_wait : ℕ → ℕ → Option Bool → Task
after_wait id flag none = waiting id flag
after_wait id flag (some success) = finishing success id

pub data Step (s : System) : System → Type 1 where
  step_begin :
      (type : ℕ) (args : Args)
      → Step s (record s {
        manager = (begin_request type args s.manager).1;
        tasks = s.tasks ++ begun (begin_request type args s.manager).0;
      })
  step_look :
      (before behind : List Task) (id flag : ℕ) (expired : Bool)
      → s.tasks ≡ before ++ (waiting id flag ∷ behind)
      → Step s (record s {
        manager = (wait_look flag expired s.manager).1;
        tasks = before ++ (after_wait id flag (wait_look flag expired s.manager).0 ∷ behind);
      })
  step_woken :
      (before behind : List Task) (id flag : ℕ) (aborted expired : Bool)
      → s.tasks ≡ before ++ (waiting id flag ∷ behind)
      → Step s
          (record s { tasks = before ++ (after_wait id flag (woken aborted expired) ∷ behind) })
  step_finish :
      (before behind : List Task) (success : Bool) (id : ℕ)
      → s.tasks ≡ before ++ (finishing success id ∷ behind)
      → Step s (record s {
        manager = (finish_request success id s.manager).1;
        tasks = before ++ (ended id (finish_request success id s.manager).0 ∷ behind);
      })
  step_process : Step s (record s {
    processing = (process_step s.processing s.manager).0;
    manager = (process_step s.processing s.manager).1;
  })
  step_cancel : Step s (record s { manager = cancel_pending_requests s.manager })
  -- The primary connection queues packages, sends them and changes its state.
  step_connection :
      (c : Connection) → Step s (record s { manager = record s.manager { connection = c } })

pub data Steps (s : System) : System → Type 1 where
  stay : Steps s s
  go : {s' s'' : System} → Steps s s' → Step s' s'' → Steps s s''

-- The rest of a response package behind the number of the request.
abbrev pub Answers : ℕ → Package → Type 0
Answers id p =
    (o : Package) × (is_response o.header.flags ≡ true) × (get_value size_t o ≡ ok (id, p))

-- A request that has returned with a package has returned with an answer to it.
abbrev pub Answered : Task → Type 0
Answered (ended id (some p)) = Answers id p
Answered _ = Unit {0}

abbrev Ready : ConcurrentUnorderedMap Package → Type 0
Ready = All (λ e. Answers e.0 e.1)

abbrev Fetched : Processing → Type 0
Fetched (inserting id flag p) = Answers id p
Fetched _ = Unit {0}

record IsMatched (s : System) : Type 0 where
  ready : Ready s.manager.request_package_map
  fetched : Fetched s.processing
  answered : All Answered s.tasks

insert-Ready :
    (id : ℕ) (p : Package) (m : ConcurrentUnorderedMap Package)
    → Answers id p
    → Ready m
    → Ready (insert_or_assign id p m)
unfolding insert_or_assign
insert-Ready id p [] a r = (a, tt)
insert-Ready id p ((k, v) ∷ m) a r = elim (Bool-cases (k == id)) [
  | inl same ↦ rw same (subst (λ (j : ℕ). Answers j p) (sym (==→eq k id same)) a, r.1)
  | inr other ↦ rw other (r.0, insert-Ready id p m a r.1)
]

erase-Ready : (id : ℕ) (m : ConcurrentUnorderedMap Package) → Ready m → Ready (erase id m)
unfolding erase
erase-Ready id [] r = tt
erase-Ready id ((k, v) ∷ m) r = elim (Bool-cases (k == id)) [
  | inl same ↦ rw same r.1
  | inr other ↦ rw other (r.0, erase-Ready id m r.1)
]

get-Answered :
    (id : ℕ) (m : ConcurrentUnorderedMap Package) → Ready m → Answered (ended id (get id m))
unfolding get
get-Answered id [] r = tt
get-Answered id ((k, v) ∷ m) r = elim (Bool-cases (k == id)) [
  | inl same ↦ rw same (subst (λ (j : ℕ). Answers j v) (==→eq k id same) r.0)
  | inr other ↦ rw other (get-Answered id m r.1)
]

finish-IsMatched :
    (success : Bool) (id : ℕ) (m : Manager)
    → Ready m.request_package_map
    → Ready (finish_request success id m).1.request_package_map
      × Answered (ended id (finish_request success id m).0)
unfolding finish_request pop
finish-IsMatched true id m r =
    (erase-Ready id m.request_package_map r, get-Answered id m.request_package_map r)
finish-IsMatched false id m r = (erase-Ready id m.request_package_map r, tt)

signal_all-Ready :
    (flags : List ℕ) (m : Manager)
    → Ready m.request_package_map
    → Ready (signal_all flags m).request_package_map
unfolding signal_all signal
signal_all-Ready [] m r = r
signal_all-Ready (flag ∷ flags) m r = signal_all-Ready flags (signal flag m) r

cancel-Ready : (m : Manager) → Ready (cancel_pending_requests m).request_package_map
unfolding cancel_pending_requests pop_all
cancel-Ready m = signal_all-Ready _ _ tt

bad_package-Ready : (m : Manager) → Ready (bad_package m).request_package_map
unfolding bad_package
bad_package-Ready m = cancel-Ready m

abbrev Kept : Processing × Manager → Type 0
Kept (q, m) = Ready m.request_package_map × Fetched q

response-Kept :
    (o : Package) (m : Manager)
    → is_response o.header.flags ≡ true
    → Ready m.request_package_map
    → (r : Result (ℕ × Package)) → get_value size_t o ≡ r
    → Kept (response r m)
unfolding response pop
response-Kept o m h r (err e) g = (bad_package-Ready m, tt)
response-Kept o m h r (ok (id, p)) g = elim (Option-cases (get id m.request_awaitable_map)) [
  | inl missing ↦ rw missing (r, tt)
  | inr (flag, there) ↦ rw there (r, (o, h, g))
]

handle-map : (p : Package) (m : Manager) → (handle p m).request_package_map ≡ m.request_package_map
unfolding handle
handle-map p m = elim (Bool-cases (p.header.type == heartbeat)) [
  | inl beat ↦ rw beat refl
  | inr other ↦
      elim (Option-cases (
        first_of (get p.header.type m.response_handler_map)
          (get p.header.type m.response_awaitable_handler_map))) [
            | inl missing ↦ rw other (rw missing refl)
            | inr (handler, there) ↦ rw other (rw there refl)
          ]
]

process-Kept : (o : Package) (m : Manager) → Ready m.request_package_map → Kept (process o m)
unfolding process
process-Kept o m r = elim (Bool-cases (is_response o.header.flags)) [
  | inl h ↦ rw h (response-Kept o m h r (get_value size_t o) refl)
  | inr h ↦ rw h (rw (handle-map o m) r, tt)
]

process_step-Kept :
    (q : Processing) (m : Manager)
    → Ready m.request_package_map
    → Fetched q
    → Kept (process_step q m)
unfolding process_step signal
process_step-Kept idle m r f = elim (Option-cases (get_package m.connection).0) [
  | inl empty ↦ rw empty (r, tt)
  | inr (o, there) ↦
      rw there (process-Kept o (record m { connection = (get_package m.connection).1 }) r)
]
process_step-Kept (inserting id flag p) m r f = (insert-Ready id p m.request_package_map f r, tt)
process_step-Kept (signalling flag) m r f = (r, tt)

sent-map :
    (id flag : ℕ) (m : Manager) (r : Result Connection)
    → (request_sent id flag m r).1.request_package_map ≡ m.request_package_map
unfolding request_sent
sent-map id flag m (ok c) = refl
sent-map id flag m (err e) = refl

begin-map :
    (type : ℕ) (args : Args) (m : Manager)
    → (begin_request type args m).1.request_package_map ≡ m.request_package_map
unfolding begin_request
begin-map type args m = elim (Bool-cases (is_connected m.connection.connection_state)) [
  | inl up ↦ rw up (sent-map _ _ _ _)
  | inr down ↦ rw down refl
]

look-map :
    (flag : ℕ) (expired : Bool) (m : Manager)
    → (wait_look flag expired m).1.request_package_map ≡ m.request_package_map
unfolding wait_look try_consume
look-map flag expired m = elim (Bool-cases (m.raised flag)) [
  | inl up ↦ rw up refl
  | inr down ↦ rw down refl
]

begun-Answered : (r : Result (Option (ℕ × ℕ))) → All Answered (begun r)
begun-Answered (ok (some (id, flag))) = (tt, tt)
begun-Answered (ok none) = tt
begun-Answered (err e) = tt

after_wait-Answered : (id flag : ℕ) (o : Option Bool) → Answered (after_wait id flag o)
after_wait-Answered id flag none = tt
after_wait-Answered id flag (some success) = tt

-- One task takes the place of another.
replaced-Answered :
    (ts before behind : List Task) (t u : Task)
    → ts ≡ before ++ (t ∷ behind)
    → All Answered ts
    → Answered u
    → All Answered (before ++ (u ∷ behind))
replaced-Answered ts before behind t u e a new =
    All-insert Answered before u behind new
      (All-split Answered before t behind (subst (All Answered) e a)).1

Step-IsMatched : (s s' : System) → Step s s' → IsMatched s → IsMatched s'
Step-IsMatched s s' (step_begin type args) x = record {
  ready = subst Ready (sym (begin-map type args s.manager)) x.ready;
  fetched = x.fetched;
  answered = All-append Answered s.tasks _ x.answered (begun-Answered _);
}
Step-IsMatched s s' (step_look before behind id flag expired e) x = record {
  ready = subst Ready (sym (look-map flag expired s.manager)) x.ready;
  fetched = x.fetched;
  answered =
      replaced-Answered s.tasks before behind (waiting id flag) _ e x.answered
        (after_wait-Answered id flag (wait_look flag expired s.manager).0);
}
Step-IsMatched s s' (step_woken before behind id flag aborted expired e) x = record {
  ready = x.ready;
  fetched = x.fetched;
  answered =
      replaced-Answered s.tasks before behind (waiting id flag) _ e x.answered
        (after_wait-Answered id flag (woken aborted expired));
}
Step-IsMatched s s' (step_finish before behind success id e) x =
    let (ready, answer) = finish-IsMatched success id s.manager x.ready in
    record {
      ready = ready;
      fetched = x.fetched;
      answered =
          replaced-Answered s.tasks before behind (finishing success id) _ e x.answered answer;
    }
Step-IsMatched s s' step_process x =
    let (ready, fetched) = process_step-Kept s.processing s.manager x.ready x.fetched in
    record { ready = ready; fetched = fetched; answered = x.answered }
Step-IsMatched s s' step_cancel x = record {
  ready = cancel-Ready s.manager;
  fetched = x.fetched;
  answered = x.answered;
}
Step-IsMatched s s' (step_connection c) x = record {
  ready = x.ready;
  fetched = x.fetched;
  answered = x.answered;
}

Steps-IsMatched : (s s' : System) → Steps s s' → IsMatched s → IsMatched s'
Steps-IsMatched s s' stay x = x
Steps-IsMatched s s'' (go {s'} r st) x = Step-IsMatched s' s'' st (Steps-IsMatched s s' r x)

-- From a manager in which no response lies ready, and with no request begun: whatever the order in
-- which requests are sent, time out, are signalled, cancelled and go on, in which packages arrive and
-- are processed and the connection changes, every request that has returned with a package has
-- returned with what follows its own number in a response.
pub requests-Answered :
    (m : Manager) (s : System)
    → m.request_package_map ≡ []
    → Steps (record { manager = m; processing = idle; tasks = [] }) s
    → All Answered s.tasks
requests-Answered m s e r =
    (Steps-IsMatched _ s r
      (record { ready = subst Ready (sym e) tt; fetched = tt; answered = tt })).answered
