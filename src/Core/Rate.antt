-- ===== src/Core/Rate.antt =====
-- SensorCore::updateSamplingRate against its purpose: the shortest period that an enabled type asked for.
use mathlib.Core.List.{Memᴰ}
use bosch_mems_android_hal.Common.{
  ℕ, ◌*◌, ◌≤◌, ◌≡◌, refl, ap, subst, ◌∙◌, ◌⊎◌, inl, inr, Bool, true, false, ◌&&◌, [], ◌∷◌, Map,
  insert, lookup_or, ltb, arith, Bool-cases, bool_ne, bool_ne→≢, bool_ne→≡, ◌≢◌, if◌then◌else◌,
}
use bosch_mems_android_hal.Core.Types.{BoschSensorType, type_code}
use bosch_mems_android_hal.Core.SensorCore.{
  SensorCore, set_sampling_rate, set_power_mode, activate_by_type, any_enabled,
  used_sampling_period, batch_by_type,
}

-- `used` is the shortest of the default and the periods of the enabled types.
pub record IsShortest (enabled : Map Bool) (periods : Map ℕ) (longest used : ℕ) : Type 0 where
  pub at_most_default : used ≤ longest
  pub at_most_each : (t p : ℕ) → Memᴰ (t, p) periods → lookup_or false t enabled ≡ true → used ≤ p
  pub attained :
      (used ≡ longest) ⊎ ((t : ℕ) × Memᴰ (t, used) periods × (lookup_or false t enabled ≡ true))

next_period : Map Bool → ℕ → ℕ → ℕ → ℕ
next_period enabled t p m = if lookup_or false t enabled && ltb p m then p else m

next_period_cases :
    (enabled : Map Bool) (t p m : ℕ)
    → (next_period enabled t p m ≤ m)
      × (lookup_or false t enabled ≡ true → next_period enabled t p m ≤ p)
      × ((next_period enabled t p m ≡ m)
          ⊎ ((next_period enabled t p m ≡ p) × (lookup_or false t enabled ≡ true)))
unfolding next_period
next_period_cases enabled t p m = elim (Bool-cases (lookup_or false t enabled)) [
  | inl e ↦ rw e (ground arith)
  | inr e ↦ rw e (ground arith)
]

IsShortest-cons :
    (enabled : Map Bool) (t p : ℕ) (ps : Map ℕ) (m m' used : ℕ)
    → (m' ≤ m)
      × (lookup_or false t enabled ≡ true → m' ≤ p)
      × ((m' ≡ m) ⊎ ((m' ≡ p) × (lookup_or false t enabled ≡ true)))
    → IsShortest enabled ps m' used
    → IsShortest enabled ((t, p) ∷ ps) m used
IsShortest-cons enabled t p ps m m' used (le, each, from) ih = record {
  at_most_default = omega (arith, ih.at_most_default);
  at_most_each = at_each;
  attained = reached from ih.attained;
}
  where
    at_each : (u q : ℕ) → Memᴰ (u, q) ((t, p) ∷ ps) → lookup_or false u enabled ≡ true → used ≤ q
    at_each u q (Memᴰ.head h) e =
        let e' : lookup_or false t enabled ≡ true =
          subst (λ k. lookup_or false k enabled ≡ true) (ap (λ x. x.0) h) e in
        let below = each e' in omega (arith, below, ih.at_most_default, ap (λ (x : ℕ × ℕ). x.1) h)
    at_each u q (Memᴰ.tail h) e = ih.at_most_each u q h e

    reached :
        (m' ≡ m) ⊎ ((m' ≡ p) × (lookup_or false t enabled ≡ true))
        → (used ≡ m') ⊎ ((u : ℕ) × Memᴰ (u, used) ps × (lookup_or false u enabled ≡ true))
        → (used ≡ m) ⊎ ((u : ℕ) × Memᴰ (u, used) ((t, p) ∷ ps) × (lookup_or false u enabled ≡ true))
    reached (inl e) (inl u) = inl (u ∙ e)
    reached (inr (e, on)) (inl u) = inr (t, Memᴰ.head (ap (λ x. (t, x)) (u ∙ e)), on)
    reached f (inr (u, h, on)) = inr (u, Memᴰ.tail h, on)

used_sampling_period-IsShortest :
    (enabled : Map Bool) (periods : Map ℕ) (m : ℕ)
    → IsShortest enabled periods m (used_sampling_period enabled periods m)
unfolding used_sampling_period next_period
used_sampling_period-IsShortest enabled [] m = record {
  at_most_default = omega arith;
  at_most_each = λ t p h e. elim h [ ];
  attained = inl refl;
}
used_sampling_period-IsShortest enabled ((t, p) ∷ ps) m =
    let m' = next_period enabled t p m in
    let step = next_period_cases enabled t p m in
    let ih = used_sampling_period-IsShortest enabled ps m' in
    IsShortest-cons enabled t p ps m m' _ step ih

module _ {F : Type 0} where
  -- The rate that a core asks the driver for, with the types that are enabled and the periods stored.
  abbrev pub IsShortestFor : SensorCore F → ℕ → Type 0
  IsShortestFor s used =
      IsShortest s.enable_state s.sampling_periods (s.sensor_data.max_delay_us * 1000) used

  -- A batch call on any core makes exactly one call of the driver, which sets the shortest of the
  -- default period and the periods of the enabled types, the new period included.
  pub batch_by_type-rate :
      (t : BoschSensorType) (p : ℕ) (s : SensorCore F)
      → (used : ℕ) × ((batch_by_type t p s).1 ≡ set_sampling_rate used ∷ [])
        × IsShortestFor
            (record s { sampling_periods = insert (type_code t) p s.sampling_periods })
            used
  unfolding batch_by_type
  batch_by_type-rate t p s = (_, refl, used_sampling_period-IsShortest _ _ _)

  -- An activate call on any core either flips the enabled state of the whole core, and then switches
  -- the power accordingly and sets the shortest period for the types that are enabled from now on, or
  -- leaves the state of the core as a whole and makes no call of the driver.
  pub activate_by_type-rate :
      (t : BoschSensorType) (enable : Bool) (s : SensorCore F)
      → (let on = any_enabled (insert (type_code t) enable s.enable_state) in
          let s' = record s { enable_state = insert (type_code t) enable s.enable_state } in
          ((on ≢ s.is_enabled)
            × (used : ℕ) × ((activate_by_type t enable s).1
                ≡ set_power_mode on ∷ set_sampling_rate used ∷ [])
            × ((activate_by_type t enable s).0.is_enabled ≡ on)
            × IsShortestFor s' used)
          ⊎ ((on ≡ s.is_enabled) × (activate_by_type t enable s ≡ (s', []))))
  unfolding activate_by_type
  activate_by_type-rate t enable s = elim (Bool-cases (bool_ne _ s.is_enabled)) [
    | inl e ↦ inl (bool_ne→≢ _ _ e, _, rw e, rw e, used_sampling_period-IsShortest _ _ _)
    | inr e ↦ inr (bool_ne→≡ _ _ e, rw e)
  ]
