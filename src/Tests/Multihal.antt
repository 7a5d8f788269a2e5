-- ===== src/Tests/Multihal.antt =====
-- The theorems on sensors/multihal at concrete values.
use bosch_mems_android_hal.Common.{arith, ℕ, ◌≡◌, refl, true, false, List, [], ◌∷◌, ◌++◌, none}
use bosch_mems_android_hal.Multihal.WakeRefs.{WakeRefs}
use bosch_mems_android_hal.Multihal.Held.{
  RefStep, increments, decrements, resets, ref_steps, held_after, is_counted, ref_steps-held,
}
use bosch_mems_android_hal.Multihal.PendingWrites.{PendingWrites, PostAnswers}
use bosch_mems_android_hal.Multihal.Waiting.{waiting, IsValid}
use bosch_mems_android_hal.Multihal.Fifo.{
  Step, posts, starts, finishes, run, all_taken_in, run-fifo,
}

abbrev nothing_pending : PendingWrites ℕ
nothing_pending = record {
  wake_refs = record {
    threads_run = true;
    wakelock_ref_count = 0;
    wakelock_timeout_start_time = 0;
    wakelock_timeout_reset_time = 0;
  };
  pending = [];
  size_pending = 0;
  most_observed = 0;
  writing = none;
}

nothing_pending-IsValid : IsValid 2 nothing_pending
nothing_pending-IsValid = record { sized = refl; started = λ n e. cc }

-- The message queue has room for one event.
abbrev little_room : PostAnswers
little_room = record { available = 1; writes = true; now = 7 }

-- Three events, of which one is written at once, and a post during the blocking write of the others.
abbrev steps : List (Step ℕ)
steps =
    posts (10 ∷ 11 ∷ 12 ∷ []) 1 true little_room
    ∷ starts
    ∷ posts (13 ∷ []) 0 false little_room
    ∷ finishes true
    ∷ starts
    ∷ finishes false
    ∷ []

run-fifo_example :
    IsValid 2 (run (λ e. true) 2 steps nothing_pending).0
    × ((run (λ e. true) 2 steps nothing_pending).1
          ++ waiting (run (λ e. true) 2 steps nothing_pending).0
        ≡ waiting nothing_pending ++ all_taken_in (λ e. true) 2 steps nothing_pending)
run-fifo_example = run-fifo (λ e. true) 2 steps nothing_pending nothing_pending-IsValid

-- Two wake up events, of which the framework handles one, and the time runs out for the other.
abbrev ref_events : List RefStep
ref_events = increments 5 2 ∷ decrements 1 none ∷ resets 9 ∷ []

abbrev no_refs : WakeRefs
no_refs = record {
  threads_run = true;
  wakelock_ref_count = 0;
  wakelock_timeout_start_time = 0;
  wakelock_timeout_reset_time = 0;
}

ref_steps-held_example :
    held_after (is_counted no_refs) (ref_steps ref_events no_refs).1
    ≡ is_counted (ref_steps ref_events no_refs).0
ref_steps-held_example = ref_steps-held ref_events no_refs (omega arith, omega arith, tt)
