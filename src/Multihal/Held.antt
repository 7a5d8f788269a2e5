-- ===== src/Multihal/Held.antt =====
-- HalProxy's shared wake lock: it is held exactly while its count is not zero.
use bosch_mems_android_hal.Common.{
  ℕ, ◌+◌, ◌<◌, ◌^◌, ◌≡◌, refl, ap, ◌∙◌, Bool, true, false, not, List, [], ◌∷◌, ◌++◌, Option, none,
  ◌==◌, arith,
}
use bosch_mems_android_hal.Multihal.WakeRefs.{
  WakeRefs, WakeCall, increment_ref_count, decrement_ref_count, reset_shared_wakelock,
}

pub data RefStep : Type 0 where
  increments : ℕ → ℕ → RefStep
  decrements : ℕ → Option ℕ → RefStep
  resets : ℕ → RefStep

pub ref_step : RefStep → WakeRefs → WakeRefs × List WakeCall
ref_step (increments now delta) w =
    let (w', calls, started) = increment_ref_count now delta w in (w', calls)
ref_step (decrements delta start) w = decrement_ref_count delta start w
ref_step (resets now) w = reset_shared_wakelock now w

pub ref_steps : List RefStep → WakeRefs → WakeRefs × List WakeCall
unfolding ref_step
ref_steps [] w = (w, [])
ref_steps (t ∷ ts) w =
    let (w1, calls) = ref_step t w in let (w2, more) = ref_steps ts w1 in (w2, calls ++ more)

-- Every increment is by at least one, and the count does not wrap.
abbrev pub Fits : List RefStep → WakeRefs → Type 0
Fits [] w = Unit
Fits (increments now delta ∷ ts) w =
    (0 < delta)
    × (w.wakelock_ref_count + delta < 2 ^ 64)
    × Fits ts (ref_step (increments now delta) w).0
Fits (decrements delta start ∷ ts) w = Fits ts (ref_step (decrements delta start) w).0
Fits (resets now ∷ ts) w = Fits ts (ref_step (resets now) w).0

abbrev pub held_after : Bool → List WakeCall → Bool
held_after held [] = held
held_after held (WakeCall.acquire_wake_lock ∷ calls) = held_after true calls
held_after held (WakeCall.release_wake_lock ∷ calls) = held_after false calls

abbrev pub is_counted : WakeRefs → Bool
is_counted w = not (w.wakelock_ref_count == 0)

held_after-append :
    (held : Bool) (xs ys : List WakeCall)
    → held_after held (xs ++ ys) ≡ held_after (held_after held xs) ys
held_after-append held [] ys = refl
held_after-append held (WakeCall.acquire_wake_lock ∷ xs) ys = held_after-append true xs ys
held_after-append held (WakeCall.release_wake_lock ∷ xs) ys = held_after-append false xs ys

increment-held :
    (now delta : ℕ) (w : WakeRefs)
    → 0 < delta
    → w.wakelock_ref_count + delta < 2 ^ 64
    → held_after (is_counted w) (ref_step (increments now delta) w).1
      ≡ is_counted (ref_step (increments now delta) w).0
unfolding ref_step increment_ref_count
increment-held now delta w pos small = ground arith

decrement-held :
    (delta : ℕ) (start : Option ℕ) (w : WakeRefs)
    → held_after (is_counted w) (decrement_ref_count delta start w).1
      ≡ is_counted (decrement_ref_count delta start w).0
unfolding decrement_ref_count
decrement-held delta start w = ground arith

reset-held :
    (now : ℕ) (w : WakeRefs)
    → held_after (is_counted w) (reset_shared_wakelock now w).1
      ≡ is_counted (reset_shared_wakelock now w).0
unfolding reset_shared_wakelock
reset-held now w = decrement-held w.wakelock_ref_count none w

-- The wake lock is held exactly while the count is not zero: this stays so through any increments,
-- decrements and resets, where every increment is by at least one and the count stays below 2 ^ 64.
pub ref_steps-held :
    (ts : List RefStep) (w : WakeRefs)
    → Fits ts w
    → held_after (is_counted w) (ref_steps ts w).1 ≡ is_counted (ref_steps ts w).0
unfolding ref_steps ref_step
ref_steps-held [] w fits = refl
ref_steps-held (increments now delta ∷ ts) w (pos, small, fits) =
    held_after-append (is_counted w) (ref_step (increments now delta) w).1 _
    ∙ ap (λ b. held_after b (ref_steps ts (ref_step (increments now delta) w).0).1)
        (increment-held now delta w pos small)
    ∙ ref_steps-held ts (ref_step (increments now delta) w).0 fits
ref_steps-held (decrements delta start ∷ ts) w fits =
    held_after-append (is_counted w) (ref_step (decrements delta start) w).1 _
    ∙ ap (λ b. held_after b (ref_steps ts (ref_step (decrements delta start) w).0).1)
        (decrement-held delta start w)
    ∙ ref_steps-held ts (ref_step (decrements delta start) w).0 fits
ref_steps-held (resets now ∷ ts) w fits =
    held_after-append (is_counted w) (ref_step (resets now) w).1 _
    ∙ ap (λ b. held_after b (ref_steps ts (ref_step (resets now) w).0).1) (reset-held now w)
    ∙ ref_steps-held ts (ref_step (resets now) w).0 fits
