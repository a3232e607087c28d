-- ===== src/Lifecycle.antt =====
-- modules/common/inc/BaseModule.h: the life of a module. `Initialize`, `Enable`, `Disable` and
-- `Shutdown` are called from any thread; the coroutines that they spawn run on the module's strand and
-- stop at every `co_await`. A stopped coroutine, or a call that is inside of `OnInitialize`, is a task;
-- what happens between two stops is one step. This holds also for a test of the state and the store
-- behind it, between which a `Shutdown` of another thread may fall in the program. The hooks of the
-- derived module are not read: a step says whether the hook returned or threw.
pub mod Enabled
pub mod Drain
pub mod Known
pub mod Final
mod Tests
use libre_connect.Base.{
  ℕ, ◌+◌, ◌%◌, ◌^◌, ◌≡◌, Bool, true, false, not, ◌||◌, ◌&&◌, List, [], ◌∷◌, ◌++◌, ◌==◌,
  if◌then◌else◌,
}

pub data ModuleState : Type 0 where
  uninitialized initializing enabling enabled disabling disabled : ModuleState

pub data ModuleFailReason : Type 0 where
  no_failure incorrect_config not_initialized initialization_failed unsupported_platform timeout
        invalid_state internal_error unknown :
      ModuleFailReason

-- The virtual functions that the code calls.
pub data Hook : Type 0 where
  on_initialize on_enable on_disable on_shutdown : Hook

pub data Task : Type 0 where
  -- in `Initialize`, behind `OnInitialize()`
  in_initialize : ℕ → Task
  -- `EnableAwaitable`: spawned, behind `OnInitialize()`, at `co_await OnEnable()`
  start_enable : Task
  enable_initialized : Task
  in_enable : Task
  -- `DisableAwaitable`: spawned, at `co_await OnDisable()`
  start_disable : Task
  in_disable : Task
  -- `ShutdownAwaitable`: spawned, at `co_await OnDisable()`, at `co_await OnShutdown()`
  start_shutdown : ModuleState → ℕ → Task
  in_shutdown_disable : ℕ → Task
  in_shutdown : ℕ → Task

pub record Module : Type 0 where
  pub state : ModuleState
  pub lifecycle_generation : ℕ
  pub fail_reason : ModuleFailReason
  -- whether `EnableResponseCallbacks` was called last, or `DisableResponseCallbacks`
  pub callbacks : Bool
  -- the error events that `ProcessError` has sent
  pub error_events : ℕ
  pub hooks : List Hook
  pub tasks : List Task

abbrev pub is_uninitialized : ModuleState → Bool
is_uninitialized uninitialized = true
is_uninitialized _ = false

abbrev pub is_enabling : ModuleState → Bool
is_enabling enabling = true
is_enabling _ = false

abbrev pub is_enabled : ModuleState → Bool
is_enabled enabled = true
is_enabled _ = false

abbrev pub is_disabling : ModuleState → Bool
is_disabling disabling = true
is_disabling _ = false

abbrev pub is_disabled : ModuleState → Bool
is_disabled disabled = true
is_disabled _ = false

abbrev pub spawn : Task → Module → Module
spawn t m = record m { tasks = m.tasks ++ (t ∷ []) }

abbrev pub set_module_state : ModuleState → Module → Module
set_module_state s m = record m { state = s }

abbrev pub call_hook : Hook → Module → Module
call_hook h m = record m { hooks = m.hooks ++ (h ∷ []) }

abbrev pub next_generation : Module → ℕ
next_generation m = (m.lifecycle_generation + 1) % 2 ^ 64

abbrev pub process_error : ModuleFailReason → Module → Module
process_error reason m = record m { fail_reason = reason; error_events = m.error_events + 1 }

unfoldable pub initialize : Module → Module
initialize m =
    if not (is_uninitialized m.state)
    then m
    else spawn (in_initialize (next_generation m)) (
        call_hook on_initialize (record m {
          lifecycle_generation = next_generation m;
          state = initializing;
          callbacks = true;
        }))

unfoldable pub enable : Module → Module
enable m = spawn start_enable m

unfoldable pub disable : Module → Module
disable m = spawn start_disable m

unfoldable pub shutdown : Module → Module
shutdown m =
    if is_uninitialized m.state
    then m
    else spawn (start_shutdown m.state (next_generation m)) (record m {
      lifecycle_generation = next_generation m;
      callbacks = false;
      state = uninitialized;
    })

-- `SetModuleState(Enabling); … co_await OnEnable();`
abbrev pub begin_enable : Module → Module
begin_enable m = spawn in_enable (call_hook on_enable (set_module_state enabling m))

unfoldable pub enable_awaitable : Module → Module
enable_awaitable m =
    if is_uninitialized m.state
    then spawn enable_initialized
        (call_hook on_initialize (record m { state = initializing; callbacks = true }))
    else if is_disabled m.state
    then begin_enable m
    else m

-- Behind `co_await OnEnable()`; false is the path of the exception.
unfoldable pub enable_completed : Bool → Module → Module
enable_completed true m = if is_enabling m.state then set_module_state enabled m else m
enable_completed false m =
    process_error internal_error (if is_enabling m.state then set_module_state disabled m else m)

unfoldable pub disable_awaitable : Module → Module
disable_awaitable m =
    if not (is_enabled m.state) && not (is_enabling m.state)
    then m
    else spawn in_disable (call_hook on_disable (set_module_state disabling m))

unfoldable pub disable_completed : Bool → Module → Module
disable_completed true m = if is_disabling m.state then set_module_state disabled m else m
disable_completed false m =
    process_error internal_error (if is_disabling m.state then set_module_state disabled m else m)

unfoldable pub shutdown_awaitable : ModuleState → ℕ → Module → Module
shutdown_awaitable s generation m =
    if is_enabled s || is_enabling s
    then spawn (in_shutdown_disable generation) (call_hook on_disable m)
    else spawn (in_shutdown generation) (call_hook on_shutdown m)

-- One stop of a coroutine to the next; the flag says whether the hook it waited for returned. Only the
-- exceptions of `OnInitialize` are not caught: the call or the coroutine ends with them.
unfoldable pub resume : Task → Bool → Module → Module
resume (in_initialize generation) false m = m
resume (in_initialize generation) true m =
    if m.lifecycle_generation == generation then set_module_state disabled m else m
resume start_enable returned m = enable_awaitable m
resume enable_initialized false m = m
resume enable_initialized true m = begin_enable (set_module_state disabled m)
resume in_enable returned m = enable_completed returned m
resume start_disable returned m = disable_awaitable m
resume in_disable returned m = disable_completed returned m
resume (start_shutdown s generation) returned m = shutdown_awaitable s generation m
resume (in_shutdown_disable generation) returned m =
    spawn (in_shutdown generation) (call_hook on_shutdown m)
-- both branches behind `OnShutdown` only write to the log
resume (in_shutdown generation) returned m = m

-- What can happen to a module: a call, or a task goes on. The strand does not order its coroutines, so
-- any task may be the next.
pub data Step (m : Module) : Module → Type 0 where
  step_initialize : Step m (initialize m)
  step_enable : Step m (enable m)
  step_disable : Step m (disable m)
  step_shutdown : Step m (shutdown m)
  step_resume :
      (before behind : List Task) (t : Task) (returned : Bool)
      → m.tasks ≡ before ++ (t ∷ behind)
      → Step m (resume t returned (record m { tasks = before ++ behind }))

pub data Steps (m : Module) : Module → Type 0 where
  stay : Steps m m
  go : {m' m'' : Module} → Steps m m' → Step m' m'' → Steps m m''

abbrev pub new_module : Module
new_module = record {
  state = uninitialized;
  lifecycle_generation = 0;
  fail_reason = no_failure;
  callbacks = false;
  error_events = 0;
  hooks = [];
  tasks = [];
}
