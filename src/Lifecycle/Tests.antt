-- ===== src/Lifecycle/Tests.antt =====
-- A module that is enabled, and shut down while it is being enabled.
use libre_connect.Base.{◌≡◌, refl, true, false, [], ◌∷◌, arith, ◌⊎◌}
use libre_connect.Lifecycle.{
  Module, uninitialized, enabling, enabled, in_initialize, start_enable, in_enable, start_shutdown,
  Steps, stay, go, step_initialize, step_enable, step_resume, new_module, initialize, enable,
  shutdown, resume, enable_awaitable, enable_completed, no_failure, on_initialize, on_enable,
}
use libre_connect.Lifecycle.Enabled.{Entered, Step-enabled}
use libre_connect.Lifecycle.Drain.{Resumes, rest, more}
use libre_connect.Lifecycle.Known.{count}
use libre_connect.Lifecycle.Final.{shutdown-final}

abbrev waiting : Module
waiting = record {
  state = enabling;
  lifecycle_generation = 1;
  fail_reason = no_failure;
  callbacks = true;
  error_events = 0;
  hooks = on_initialize ∷ on_enable ∷ [];
  tasks = in_enable ∷ [];
}

abbrev after : Module
after = resume in_enable true (record waiting { tasks = [] })

after_enabled : after.state ≡ enabled
unfolding resume enable_completed
after_enabled = refl

Step-enabled_example : (waiting.state ≡ enabled) ⊎ Entered waiting after
Step-enabled_example =
    Step-enabled waiting after (step_resume [] [] in_enable true refl) after_enabled

abbrev spawned : Module
spawned = enable (resume (in_initialize 1) true (record (initialize new_module) { tasks = [] }))

history : Steps new_module waiting
unfolding initialize enable resume enable_awaitable
history =
    go
      (go (go (go stay step_initialize) (step_resume [] [] (in_initialize 1) true refl))
        step_enable)
      (step_resume [] [] start_enable true refl)

history-count : count history ≡ 4
unfolding history
history-count = refl

abbrev late : Module
late = resume in_enable true (record (shutdown waiting) { tasks = start_shutdown enabling 2 ∷ [] })

late_run : Resumes (shutdown waiting) 1 late
unfolding shutdown
late_run = more rest [] (start_shutdown enabling 2 ∷ []) in_enable true refl

shutdown-final_example : (late.state ≡ uninitialized) × (late.callbacks ≡ false)
shutdown-final_example =
    shutdown-final waiting late history 1 (omega (arith, history-count)) refl (refl, tt) late_run
