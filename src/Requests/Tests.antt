-- ===== src/Requests/Tests.antt =====
-- A request, its response and a cancellation.
use libre_connect.Base.{
  ℕ, ◌+◌, ◌^◌, ◌<◌, ◌≡◌, ◌≢◌, refl, true, false, List, [], ◌∷◌, ◌++◌, some, none, ok, All, arith,
}
use libre_connect.Wire.Text.{size_t, size_t-IsLawful}
use libre_connect.Package.{Package, Args, nil, cons, get_value}
use libre_connect.Package.Laws.{Lawful, nil_lawful, cons_lawful, ReadsBack, total}
use libre_connect.Transfer.Channel.{connected}
use libre_connect.Connection.{Connection}
use libre_connect.ConcurrentMap.{get}
use libre_connect.ConcurrentMap.Laws.{HasKeysOnce}
use libre_connect.Requests.{
  Manager, Processing, idle, inserting, signalling, finish_request, send_request_response, process,
  process_step, begin_request, request_sent, cancel_pending_requests, wait_look, is_response,
}
use libre_connect.Requests.Answers.{settle, response_arrives}
use libre_connect.Requests.Cancel.{cancel_wakes, late_response_stays}
use libre_connect.Requests.Matching.{
  System, ended, begun, after_wait, step_begin, Steps, stay, go, Answered, step_process, step_look,
  step_finish, requests-Answered,
}

abbrev link : List Package → Connection
link queued = record {
  connection_state = connected;
  connection_generation = 1;
  package_out = [];
  package_in = queued;
  inbound_queued_bytes = 0;
  heartbeat_received = false;
  disconnected_event_sent = false;
  outcomes = [];
  sent = [];
  incoming = [];
  disconnects = [];
  events = 0;
}

-- Request 3 waits with flag 5.
abbrev manager : Manager
manager = record {
  connection = link [];
  current_request_id = 4;
  request_awaitable_map = (2, 4) ∷ (3, 5) ∷ [];
  request_package_map = [];
  response_handler_map = [];
  response_awaitable_handler_map = [];
  posted = [];
  flags = 6;
  raised = λ f. false;
}

manager-HasKeysOnce : HasKeysOnce manager.request_awaitable_map
unfolding libre_connect.ConcurrentMap.contains
manager-HasKeysOnce = (refl, (refl, tt))

waits : get 3 manager.request_awaitable_map ≡ some 5
unfolding get
waits = refl

abbrev number : Args
number = cons size_t 1234 nil

number-Lawful : Lawful number
number-Lawful = cons_lawful size_t-IsLawful (omega arith) nil_lawful

small : 8 + total number < 2 ^ 32
unfolding libre_connect.Wire.Primitive.primitive
small = omega arith

response_arrives_example :
    (p : Package) × (send_request_response 3 20 number manager
      ≡ ok (record manager {
        connection = record manager.connection {
          package_out = manager.connection.package_out ++ (p ∷ []);
        };
      }))
    × ((settle (process p manager)).raised 5 ≡ true)
    × ((got end : Package) × ((finish_request true 3 (settle (process p manager))).0 ≡ some got)
        × ReadsBack number got end)
    × ((j : ℕ)
        → j ≢ 3
        → get j (settle (process p manager)).request_awaitable_map
          ≡ get j manager.request_awaitable_map)
response_arrives_example =
    response_arrives 20 3 number-Lawful (omega arith) 5 manager manager small refl waits
      manager-HasKeysOnce

cancel_wakes_example :
    ((cancel_pending_requests manager).request_awaitable_map ≡ [])
    × ((cancel_pending_requests manager).request_package_map ≡ [])
    × ((wait_look 5 true (cancel_pending_requests manager)).0 ≡ some true)
    × ((finish_request true 3 (wait_look 5 true (cancel_pending_requests manager)).1).0 ≡ none)
cancel_wakes_example = cancel_wakes manager 3 5 true waits

-- A response with the number 3 and nothing behind it.
abbrev answer : Package
answer = record {
  buffer = 0 ∷ 0 ∷ 0 ∷ 0 ∷ 0 ∷ 0 ∷ 0 ∷ 3 ∷ [];
  header = record { type = 20; size = 8; flags = 16 };
  read_offset = 0;
}

abbrev read_answer : Package
read_answer = record answer { read_offset = 8 }

answer_read : get_value size_t answer ≡ ok (3, read_answer)
unfolding get_value libre_connect.Wire.Primitive.primitive
    libre_connect.Wire.Primitive.deserialize_primitive libre_connect.Wire.Primitive.from_big_endian
answer_read = refl

late_response_stays_example :
    (m' : Manager) × (process answer manager ≡ (inserting 3 5 read_answer, m'))
    × ((finish_request false 3 m').0 ≡ none)
    × (get 3
          (process_step
            (inserting 3 5 read_answer)
            (finish_request false 3 m').1).1.request_package_map
        ≡ some read_answer)
    × (get 3
          (process_step
            (inserting 3 5 read_answer)
            (finish_request false 3 m').1).1.request_awaitable_map
        ≡ none)
late_response_stays_example =
    late_response_stays manager 3 5 answer read_answer refl answer_read waits manager-HasKeysOnce

-- A request is sent while its response is there already.
abbrev start : System
start = record {
  manager = record manager {
    connection = link (record answer { buffer = 0 ∷ 0 ∷ 0 ∷ 0 ∷ 0 ∷ 0 ∷ 0 ∷ 4 ∷ [] } ∷ []);
  };
  processing = idle;
  tasks = [];
}

abbrev sent : System
sent = record start {
  manager = (begin_request 7 nil start.manager).1;
  tasks = begun (begin_request 7 nil start.manager).0;
}

abbrev processed : System → System
processed s = record s {
  processing = (process_step s.processing s.manager).0;
  manager = (process_step s.processing s.manager).1;
}

abbrev signalled : System
signalled = processed (processed (processed sent))

abbrev looked : System
looked = record signalled {
  manager = (wait_look 6 false signalled.manager).1;
  tasks = after_wait 4 6 (wait_look 6 false signalled.manager).0 ∷ [];
}

abbrev finished : System
finished = record looked {
  manager = (finish_request true 4 looked.manager).1;
  tasks = ended 4 (finish_request true 4 looked.manager).0 ∷ [];
}

steps : Steps start finished
unfolding begin_request request_sent process_step wait_look finish_request
    libre_connect.Connection.send_with_flag libre_connect.Package.create
    libre_connect.Package.insert_elements libre_connect.Wire.Primitive.primitive
    libre_connect.Wire.Primitive.serialize_primitive
    libre_connect.Wire.Buffer.ensure_serialize_space libre_connect.Package.of_header
    libre_connect.Package.calculate_size libre_connect.Connection.get_package
    libre_connect.Connection.dequeued libre_connect.Wire.Primitive.deserialize_primitive
    libre_connect.Wire.Primitive.from_big_endian libre_connect.Wire.Primitive.big_endian
    libre_connect.ConcurrentMap.get libre_connect.ConcurrentMap.erase
    libre_connect.ConcurrentMap.insert_or_assign libre_connect.ConcurrentMap.pop
    libre_connect.Requests.signal libre_connect.Requests.try_consume libre_connect.Requests.response
    libre_connect.Package.get_value libre_connect.Requests.process
steps =
    let one : Steps start sent = go stay (step_begin 7 nil) in
    let four : Steps start signalled = go (go (go one step_process) step_process) step_process in
    let five : Steps start looked = go four (step_look [] [] 4 6 false refl) in
    go five (step_finish [] [] true 4 refl)

requests-Answered_example : All Answered finished.tasks
requests-Answered_example = requests-Answered start.manager finished refl steps
