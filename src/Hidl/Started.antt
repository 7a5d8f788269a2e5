-- ===== src/Hidl/Started.antt =====
-- What initializeBase of sensors/2.X/Sensors.h leaves, and the posts after it.
use bosch_mems_android_hal.Common.{
  ℕ, ◌≡◌, refl, sym, ap, ◌∙◌, ◌↔◌, inl, inr, Bool, true, false, ◌&&◌, List, [], ◌∷◌, none, some,
  Map, lookup, insert, lookup-insert, length, ◌==◌, Bool-cases, Option-cases, if◌then◌else◌,
  FloatOps,
}
use bosch_mems_android_hal.Core.DirectChannel.{DirectChannel}
use bosch_mems_android_hal.Aidl.Types.{Interface, Event}
use bosch_mems_android_hal.Aidl.Reports.{Answers}
use bosch_mems_android_hal.Aidl.Service.{ServiceAnswers}
use bosch_mems_android_hal.Multihal.Types.{ok, bad_value}
use bosch_mems_android_hal.Subhal.Sensor.{Sensor, remove_direct_channel, update_direct_channel}
use bosch_mems_android_hal.Subhal.Reports.{activate, switch}
use bosch_mems_android_hal.Hidl.Loops.{remove_from_sensors, remove_channels}
use bosch_mems_android_hal.Hidl.Service.{Sensors, post_events}
use bosch_mems_android_hal.Hidl.Initialize.{disable_each, initialize_base}

module _ {F : Type 0} where
  -- No sensor of the map is enabled.
  abbrev pub AllDisabled : Map (Sensor F) → Type 0
  AllDisabled m = (h : ℕ) (s : Sensor F) → lookup h m ≡ some s → s.is_enabled ≡ false

  remove-enabled :
      (ch : ℕ) (s : Sensor F) → (remove_direct_channel ch s).0.is_enabled ≡ s.is_enabled
  unfolding remove_direct_channel update_direct_channel
  remove-enabled ch s = refl

  insert-AllDisabled :
      (h : ℕ) (s : Sensor F) (m : Map (Sensor F))
      → s.is_enabled ≡ false
      → AllDisabled m
      → AllDisabled (insert h s m)
  insert-AllDisabled h s m off all k t found = elim (Bool-cases (h == k)) [
    | inl e ↦
        let is : some s ≡ some t = sym (lookup-insert h k s m ∙ rw e refl) ∙ found in
        let same : s ≡ t = cc in ap (λ u. u.is_enabled) (sym same) ∙ off
    | inr e ↦ all k t (sym (lookup-insert h k s m ∙ rw e refl) ∙ found)
  ]

  remove_from_sensors-AllDisabled :
      (ch : ℕ) (hs : List ℕ) (m : Map (Sensor F))
      → AllDisabled m
      → AllDisabled (remove_from_sensors ch hs m).0
  unfolding remove_from_sensors
  remove_from_sensors-AllDisabled ch [] m all = all
  remove_from_sensors-AllDisabled ch (h ∷ hs) m all = elim (Option-cases (lookup h m)) [
    | inl e ↦ rw (remove_from_sensors, e) (remove_from_sensors-AllDisabled ch hs m all)
    | inr (s, e) ↦
        let s' = (remove_direct_channel ch s).0 in
        rw (remove_from_sensors, e)
          (remove_from_sensors-AllDisabled ch hs (insert h s' m)
            (insert-AllDisabled h s' m (remove-enabled ch s ∙ all h s e) all))
  ]

  remove_channels-AllDisabled :
      {E : Type 0} (cs : Map (DirectChannel E)) (m : Map (Sensor F))
      → AllDisabled m
      → AllDisabled (remove_channels cs m).0
  unfolding remove_channels
  remove_channels-AllDisabled [] m all = all
  remove_channels-AllDisabled ((ch, c) ∷ cs) m all =
      remove_channels-AllDisabled cs (remove_from_sensors ch c.sensor_handles m).0
        (remove_from_sensors-AllDisabled ch c.sensor_handles m all)

module _ {F : Type 0} (ops : FloatOps F) (api : Interface) (ans : Answers F) where
  activate-disabled : (s : Sensor F) → (activate ops api ans false s).0.is_enabled ≡ false
  unfolding activate switch
  activate-disabled s = elim (Bool-cases s.is_enabled) [ inl e ↦ rw e refl | inr e ↦ rw e refl ]

  disable_each-AllDisabled : (m : Map (Sensor F)) → AllDisabled (disable_each ops api ans m).0
  unfolding disable_each
  disable_each-AllDisabled [] h s found = cc
  disable_each-AllDisabled ((k, t) ∷ m) h s found = elim (Bool-cases (k == h)) [
    | inl e ↦
        let is : some (activate ops api ans false t).0 ≡ some s = rw e at found in
        let same : (activate ops api ans false t).0 ≡ s = cc in
        ap (λ u. u.is_enabled) (sym same) ∙ activate-disabled t
    | inr e ↦ disable_each-AllDisabled m h s (rw e at found)
  ]

undefined_if :
    {A : Type 0} (flag accepted : Bool) (written kept : A)
    → ((if accepted then (if flag then some written else none) else some kept) ≡ none)
      ↔ ((flag ≡ false) × (accepted ≡ true))
undefined_if true true written kept = (λ e. cc, λ e. cc)
undefined_if false true written kept = (λ e. (refl, refl), λ e. refl)
undefined_if true false written kept = (λ e. cc, λ e. cc)
undefined_if false false written kept = (λ e. cc, λ e. cc)

module _ {F E : Type 0} (to_event : Event F → E) (ops : FloatOps F) (api : Interface) where
  -- In any state: initializeBase leaves every sensor disabled and no direct channel, and answers OK exactly if there is a
  -- callback and the event flag could be made. After it, a post is undefined exactly if the flag could not be made
  -- and the queue takes the events.
  pub initialize_base-starts :
      (ans : Answers F) (has_callback flag_made : Bool) (v : Sensors F E) (later : ServiceAnswers F)
      (events : List (Event F)) (wakeup : Bool)
      → let (result, v', out) = initialize_base ops api ans has_callback flag_made v in
        AllDisabled v'.sensors
        × (v'.direct_channels ≡ [])
        × ((result ≡ ok) ↔ ((flag_made ≡ true) × (has_callback ≡ true)))
        × ((post_events to_event api later events wakeup v' ≡ none)
            ↔ ((flag_made ≡ false) × (later.accepts (length events) ≡ true)))
  unfolding initialize_base post_events
  initialize_base-starts ans has_callback flag_made v later events wakeup = (
    remove_channels-AllDisabled v.direct_channels (disable_each ops api ans v.sensors).0
        (disable_each-AllDisabled ops api ans v.sensors),
    refl,
    answer has_callback flag_made,
    undefined_if flag_made (later.accepts (length events)) _ _,
  )
    where
      answer : (c f : Bool) → ((if f && c then ok else bad_value) ≡ ok) ↔ ((f ≡ true) × (c ≡ true))
      answer true true = (λ e. (refl, refl), λ e. refl)
      answer false true = (λ e. cc, λ e. cc)
      answer true false = (λ e. cc, λ e. cc)
      answer false false = (λ e. cc, λ e. cc)
