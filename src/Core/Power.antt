-- ===== src/Core/Power.antt =====
-- SensorCore: the power mode that the driver was last told is on exactly if some type is enabled.
use bosch_mems_android_hal.Common.{
  ℕ, ◌≡◌, refl, sym, ap, ◌∙◌, Bool, true, false, List, [], ◌∷◌, ◌++◌, Map, insert, lookup_or, arith,
  Bool-cases, bool_ne, bool_ne→≡, inl, inr, ◌==◌, if◌then◌else◌, lookup_or-insert,
}
use bosch_mems_android_hal.Core.Types.{BoschSensorType, type_code, SensorData}
use bosch_mems_android_hal.Core.SensorCore.{
  SensorCore, Call, set_power_mode, set_sampling_rate, make_sensor_core, any_enabled, touch,
  activate_by_type, batch_by_type,
}

pub any_enabled-insert-true : (t : ℕ) (m : Map Bool) → any_enabled (insert t true m) ≡ true
any_enabled-insert-true t [] = refl
any_enabled-insert-true t ((u, b) ∷ m) = ground (arith, any_enabled-insert-true t m)

-- A type that is enabled makes the whole enabled.
any_enabled-lookup : (t : ℕ) (m : Map Bool) → lookup_or false t m ≡ true → any_enabled m ≡ true
any_enabled-lookup t [] h = cc
any_enabled-lookup t ((u, b) ∷ m) h = ground (arith, any_enabled-lookup t m)

-- Making an entry with the default value changes nothing.
any_enabled-insert_same :
    (t : ℕ) (m : Map Bool) → any_enabled (insert t (lookup_or false t m) m) ≡ any_enabled m
any_enabled-insert_same t [] = refl
any_enabled-insert_same t ((u, b) ∷ m) =
    ground (arith, any_enabled-lookup t m, any_enabled-insert_same t m)

any_enabled-touch : (ps : Map ℕ) (m : Map Bool) → any_enabled (touch ps m) ≡ any_enabled m
unfolding touch
any_enabled-touch [] m = refl
any_enabled-touch ((t, p) ∷ ps) m =
    any_enabled-touch ps (insert t (lookup_or false t m) m) ∙ any_enabled-insert_same t m

-- What the HAL asks of one core, in any order and for any of the types that share it.
pub data Request : Type 0 where
  activates : BoschSensorType → Bool → Request
  batches : BoschSensorType → ℕ → Request

-- The power mode after a sequence of calls.
abbrev pub power_after : Bool → List Call → Bool
power_after on [] = on
power_after on (set_power_mode b ∷ calls) = power_after b calls
power_after on (set_sampling_rate p ∷ calls) = power_after on calls

-- The latest request for a type, `on` where there is none.
abbrev pub latest : BoschSensorType → Bool → List Request → Bool
latest t on [] = on
latest t on (activates u b ∷ rs) = latest t (if type_code u == type_code t then b else on) rs
latest t on (batches u p ∷ rs) = latest t on rs

power_after-append :
    (on : Bool) (xs ys : List Call) → power_after on (xs ++ ys) ≡ power_after (power_after on xs) ys
power_after-append on [] ys = refl
power_after-append on (set_power_mode b ∷ xs) ys = power_after-append b xs ys
power_after-append on (set_sampling_rate p ∷ xs) ys = power_after-append on xs ys

lookup_or-touch :
    (j : ℕ) (ps : Map ℕ) (m : Map Bool) → lookup_or false j (touch ps m) ≡ lookup_or false j m
unfolding touch
lookup_or-touch j [] m = refl
lookup_or-touch j ((t, p) ∷ ps) m = ground (
  arith,
  lookup_or-touch j ps (insert t (lookup_or false t m) m),
  lookup_or-insert false t j (lookup_or false t m) m,
)

module _ {F : Type 0} where
  unfoldable pub request : Request → SensorCore F → SensorCore F × List Call
  request (activates t enable) s = activate_by_type t enable s
  request (batches t p) s = batch_by_type t p s

  unfoldable pub requests : List Request → SensorCore F → SensorCore F × List Call
  unfolding request
  requests [] s = (s, [])
  requests (r ∷ rs) s =
      let (s', calls) = request r s in let (s'', more) = requests rs s' in (s'', calls ++ more)

  request-power :
      (r : Request) (s : SensorCore F)
      → s.is_enabled ≡ any_enabled s.enable_state
      → ((request r s).0.is_enabled ≡ any_enabled (request r s).0.enable_state)
        × (power_after s.is_enabled (request r s).1 ≡ (request r s).0.is_enabled)
  unfolding request activate_by_type batch_by_type
  request-power (activates t enable) s h =
      elim (Bool-cases
        (bool_ne (any_enabled (insert (type_code t) enable s.enable_state)) s.is_enabled)) [
          | inl e ↦ rw e (sym (any_enabled-touch s.sampling_periods _), refl)
          | inr e ↦ rw e (sym (bool_ne→≡ _ _ e), refl)
        ]
  request-power (batches t p) s h =
      (h ∙ sym (any_enabled-touch (insert (type_code t) p s.sampling_periods) s.enable_state), refl)

  requests-power_from :
      (rs : List Request) (s : SensorCore F)
      → s.is_enabled ≡ any_enabled s.enable_state
      → ((requests rs s).0.is_enabled ≡ any_enabled (requests rs s).0.enable_state)
        × (power_after s.is_enabled (requests rs s).1 ≡ (requests rs s).0.is_enabled)
  unfolding requests
  requests-power_from [] s h = (h, refl)
  requests-power_from (r ∷ rs) s h =
      let (h', e) = request-power r s h in
      let (h'', e') = requests-power_from rs (request r s).0 h' in
      (
        h'',
        power_after-append s.is_enabled (request r s).1 (requests rs (request r s).0).1
            ∙ ap (λ b. power_after b (requests rs (request r s).0).1) e
            ∙ e',
      )

  request-enable_state :
      (r : Request) (s : SensorCore F) (t : BoschSensorType)
      → lookup_or false (type_code t) (request r s).0.enable_state
        ≡ latest t (lookup_or false (type_code t) s.enable_state) (r ∷ [])
  unfolding request activate_by_type batch_by_type
  request-enable_state (activates u enable) s t =
      elim (Bool-cases
        (bool_ne (any_enabled (insert (type_code u) enable s.enable_state)) s.is_enabled)) [
          | inl e ↦ rw e (
              lookup_or-touch (type_code t) s.sampling_periods
                (insert (type_code u) enable s.enable_state)
              ∙ lookup_or-insert false (type_code u) (type_code t) enable s.enable_state)
          | inr e ↦ rw e (lookup_or-insert false (type_code u) (type_code t) enable s.enable_state)
        ]
  request-enable_state (batches u p) s t =
      lookup_or-touch (type_code t) (insert (type_code u) p s.sampling_periods) s.enable_state

  requests-enable_state :
      (rs : List Request) (s : SensorCore F) (t : BoschSensorType)
      → lookup_or false (type_code t) (requests rs s).0.enable_state
        ≡ latest t (lookup_or false (type_code t) s.enable_state) rs
  unfolding requests
  requests-enable_state [] s t = refl
  requests-enable_state (activates u b ∷ rs) s t =
      requests-enable_state rs (request (activates u b) s).0 t
      ∙ ap (λ on. latest t on rs) (request-enable_state (activates u b) s t)
  requests-enable_state (batches u p ∷ rs) s t =
      requests-enable_state rs (request (batches u p) s).0 t
      ∙ ap (λ on. latest t on rs) (request-enable_state (batches u p) s t)

  -- After any requests to a new core, the driver was last told to be on exactly if some type is
  -- enabled, and a type is enabled exactly if the latest activate request for it said so.
  pub requests-power :
      (rs : List Request) (d : SensorData F)
      → let (s, calls) = requests rs (make_sensor_core d) in
        (power_after false calls ≡ any_enabled s.enable_state)
        × (s.is_enabled ≡ any_enabled s.enable_state)
        × ((t : BoschSensorType) → lookup_or false (type_code t) s.enable_state ≡ latest t false rs)
  unfolding make_sensor_core
  requests-power rs d =
      let (inv, power) = requests-power_from rs (make_sensor_core d) refl in
      (power ∙ inv, inv, requests-enable_state rs (make_sensor_core d))
