-- ===== src/Core/Shared.antt =====
-- CompositeSensorCore's loops over its dependencies (Core.Composite), as seen by one core.
use mathlib.Core.List.{append-nil, append_assoc}
use bosch_mems_android_hal.Common.{
  ◌⊎◌, Option-cases, none, some, All, FloatOps, ℕ, ◌≡◌, refl, sym, ap, ◌∙◌, true, false, List, [],
  ◌∷◌, ◌++◌, map, Bool-cases, inl, inr, ◌==◌, ==_iff, ==_self, subst, if◌then◌else◌,
}
use bosch_mems_android_hal.Hwctl.Stream.{Sysfs}
use bosch_mems_android_hal.Core.SensorCore
use bosch_mems_android_hal.Core.SensorCore.{Call, activate_by_type, batch_by_type}
use bosch_mems_android_hal.Core.Power.{Request, request, requests}
use bosch_mems_android_hal.Core.Composite.{Store, at_core, at_each, composite_temperature}

-- The calls that go to the driver of one core.
abbrev pub calls_of : ℕ → List (ℕ × Call) → List Call
calls_of d [] = []
calls_of d ((i, c) ∷ log) = if i == d then c ∷ calls_of d log else calls_of d log

-- One request for every time that the core stands in the list.
abbrev pub for_each_place : ℕ → Request → List ℕ → List Request
for_each_place d r [] = []
for_each_place d r (i ∷ ds) = (if i == d then r ∷ [] else []) ++ for_each_place d r ds

calls_of-append :
    (d : ℕ) (xs ys : List (ℕ × Call)) → calls_of d (xs ++ ys) ≡ calls_of d xs ++ calls_of d ys
calls_of-append d [] ys = refl
calls_of-append d ((i, c) ∷ xs) ys = elim (Bool-cases (i == d)) [
  | inl e ↦ rw e (ap (λ l. c ∷ l) (calls_of-append d xs ys))
  | inr e ↦ rw e (calls_of-append d xs ys)
]

calls_of-map_same :
    (i d : ℕ) (calls : List Call) → (i == d) ≡ true → calls_of d (map (λ c. (i, c)) calls) ≡ calls
calls_of-map_same i d [] e = refl
calls_of-map_same i d (c ∷ calls) e = rw e (ap (λ l. c ∷ l) (calls_of-map_same i d calls e))

calls_of-map_other :
    (i d : ℕ) (calls : List Call) → (i == d) ≡ false → calls_of d (map (λ c. (i, c)) calls) ≡ []
calls_of-map_other i d [] e = refl
calls_of-map_other i d (c ∷ calls) e = rw e (calls_of-map_other i d calls e)

module _ {F : Type 0} where
  -- What core d is and what its driver was told, as its own requests leave it.
  abbrev pub IsAfter : ℕ → List Request → Store F → Store F × List (ℕ × Call) → Type 0
  IsAfter d rs before (after, log) =
      (after d ≡ (requests rs (before d)).0) × (calls_of d log ≡ (requests rs (before d)).1)

  requests-append :
      (xs ys : List Request) (s : SensorCore.SensorCore F)
      → requests (xs ++ ys) s ≡ (
        (requests ys (requests xs s).0).0,
        (requests xs s).1 ++ (requests ys (requests xs s).0).1,
      )
  unfolding requests
  requests-append [] ys s = refl
  requests-append (x ∷ xs) ys s = rw (requests-append xs ys (request x s).0) (
      ap (λ (l : List Call). ((requests ys (requests xs (request x s).0).0).0, l))
        (sym (append_assoc (request x s).1 _ _)))

  pub IsAfter-compose :
      (d : ℕ) (xs ys : List Request) (store : Store F) (a b : Store F × List (ℕ × Call))
      → IsAfter d xs store a
      → IsAfter d ys a.0 b
      → IsAfter d (xs ++ ys) store (b.0, a.1 ++ b.1)
  IsAfter-compose d xs ys store a b (s, l) (s', l') =
      rw (requests-append xs ys (store d), calls_of-append d a.1 b.1, l, l', s', s) (refl, refl)

  pub at_core-IsAfter :
      (d i : ℕ) (r : Request) (store : Store F)
      → IsAfter d (if i == d then r ∷ [] else []) store (at_core (request r) i store)
  unfolding at_core requests
  at_core-IsAfter d i r store = elim (Bool-cases (i == d)) [
    | inl e ↦
        subst (λ j. IsAfter j (if i == j then r ∷ [] else []) store (at_core (request r) i store))
          ((==_iff i d).0 e)
          (rw (==_self i)
            (refl, calls_of-map_same i i (request r (store i)).1 (==_self i) ∙ sym (append-nil _)))
    | inr e ↦ rw e (refl, calls_of-map_other i d (request r (store i)).1 e)
  ]

  pub at_each-IsAfter :
      (d : ℕ) (r : Request) (ds : List ℕ) (store : Store F)
      → IsAfter d (for_each_place d r ds) store (at_each (request r) ds store)
  unfolding at_each requests
  at_each-IsAfter d r [] store = (refl, refl)
  at_each-IsAfter d r (i ∷ ds) store =
      IsAfter-compose d (if i == d then r ∷ [] else []) (for_each_place d r ds) store
        (at_core (request r) i store) (at_each (request r) ds (at_core (request r) i store).0)
        (at_core-IsAfter d i r store) (at_each-IsAfter d r ds (at_core (request r) i store).0)

module _ {F : Type 0} (ops : FloatOps F) where
  -- Reading the temperature of a composite sensor either fails, and every dependency fails to read, or
  -- gives what the first dependency that can be read gives.
  composite_temperature-first :
      (fs : Sysfs) (store : Store F) (ds : List ℕ)
      → let read = λ (d : ℕ). SensorCore.read_sensor_temperature ops fs (store d) in
        ((composite_temperature ops fs store ds ≡ none) × All (λ d. read d ≡ none) ds)
        ⊎ ((before : List ℕ) × (d : ℕ) × (after : List ℕ) × (t : F) × (ds ≡ before ++ d ∷ after)
            × All (λ e. read e ≡ none) before
            × (read d ≡ some t)
            × (composite_temperature ops fs store ds ≡ some t))
  unfolding composite_temperature
  composite_temperature-first fs store [] = inl (refl, tt)
  composite_temperature-first fs store (d ∷ ds) =
      elim (Option-cases (SensorCore.read_sensor_temperature ops fs (store d))) [
        | inr (t, e) ↦ inr ([], d, ds, t, refl, tt, e, rw (composite_temperature, e) refl)
        | inl e ↦ elim (composite_temperature-first fs store ds) [
          | inl (none_at, all) ↦ inl (rw (composite_temperature, e) none_at, (e, all))
          | inr (before, c, after, t, split, all, reads, some_at) ↦ inr (
            d ∷ before,
            c,
            after,
            t,
            ap (λ l. d ∷ l) split,
            (e, all),
            reads,
            rw (composite_temperature, e) some_at,
          )
        ]
      ]
