-- ===== src/Multihal/Modes.antt =====
-- HalProxy::setOperationMode (Multihal.HalProxy): all sub-HALs change their mode, or the change is taken back.
use bosch_mems_android_hal.Common.{
  suc, ◌≡◌, refl, sym, ap, ◌⊎◌, true, false, List, [], ◌∷◌, ◌++◌, map, length, All, Bool-cases, inl,
  inr,
}
use bosch_mems_android_hal.Aidl.Reports.{OperationMode}
use bosch_mems_android_hal.Multihal.Types.{Result, is_ok, SubHal}
use bosch_mems_android_hal.Multihal.HalProxy.{HalProxy, set_modes, reset_modes, set_operation_mode}

module _ {S R P M : Type 0} (hal : SubHal S R P M) where
  abbrev pub Accepts : OperationMode → S → Type 0
  Accepts mode s = is_ok (hal.set_operation_mode mode s).0 ≡ true

  abbrev pub in_mode : OperationMode → S → S
  in_mode mode s = (hal.set_operation_mode mode s).1

  -- The sub-HAL that fails, those before it, which accept the mode, and those after it.
  pub record FailsAt (mode : OperationMode) (hals : List S) (result : Result) : Type 0 where
    pub before : List S
    pub failing : S
    pub after : List S
    pub split : hals ≡ before ++ failing ∷ after
    pub before_accept : All (Accepts mode) before
    pub result_is : (hal.set_operation_mode mode failing).0 ≡ result
    pub fails : is_ok result ≡ false

  set_modes_cases :
      (mode : OperationMode) (hals : List S)
      → (All (Accepts mode) hals
          × (is_ok (set_modes hal mode hals).0 ≡ true)
          × ((set_modes hal mode hals).2 ≡ map (in_mode mode) hals))
        ⊎ ((f : FailsAt mode hals (set_modes hal mode hals).0) × ((set_modes hal mode hals).1
              ≡ length f.before)
            × ((set_modes hal mode hals).2
                ≡ map (in_mode mode) f.before ++ in_mode mode f.failing ∷ f.after))
  unfolding set_modes
  set_modes_cases mode [] = inl (tt, refl, refl)
  set_modes_cases mode (s ∷ ss) = elim (Bool-cases (is_ok (hal.set_operation_mode mode s).0)) [
    | inr e ↦ rw e (
        inr (
          record {
            before = [];
            failing = s;
            after = ss;
            split = refl;
            before_accept = tt;
            result_is = refl;
            fails = e;
          },
          refl,
          refl,
        ))
    | inl e ↦ rw e (elim (set_modes_cases mode ss) [
      | inl (all, fine, modes) ↦ inl ((refl, all), fine, ap (λ l. in_mode mode s ∷ l) modes)
      | inr (f, count, modes) ↦ inr (
        record {
          before = s ∷ f.before;
          failing = f.failing;
          after = f.after;
          split = ap (λ l. s ∷ l) f.split;
          before_accept = (e, f.before_accept);
          result_is = f.result_is;
          fails = f.fails;
        },
        ap suc count,
        ap (λ l. in_mode mode s ∷ l) modes,
      )
    ])
  ]

  length-map : (f : S → S) (xs : List S) → length (map f xs) ≡ length xs
  length-map f [] = refl
  length-map f (x ∷ xs) = ap suc (length-map f xs)

  reset_modes-append :
      (mode : OperationMode) (xs ys : List S)
      → reset_modes hal mode (length xs) (xs ++ ys) ≡ map (in_mode mode) xs ++ ys
  unfolding reset_modes
  reset_modes-append mode [] [] = refl
  reset_modes-append mode [] (y ∷ ys) = refl
  reset_modes-append mode (x ∷ xs) ys = ap (λ l. in_mode mode x ∷ l) (reset_modes-append mode xs ys)

  -- Either every sub-HAL accepts the mode: then the call succeeds, each of them has set it once, and it is
  -- the current mode. Or one of them fails: then its result is returned, the current mode stays, the
  -- sub-HALs before it have set the mode and then the current mode again, and those after it have had no
  -- call. Nothing else of the proxy changes.
  pub set_operation_mode_cases :
      (mode : OperationMode) (p : HalProxy S R)
      → (All (Accepts mode) p.sub_hal_list
          × (is_ok (set_operation_mode hal mode p).0 ≡ true)
          × ((set_operation_mode hal mode p).1 ≡ record p {
            sub_hal_list = map (in_mode mode) p.sub_hal_list;
            current_operation_mode = mode;
          }))
        ⊎ ((f : FailsAt mode p.sub_hal_list (set_operation_mode hal mode p).0)
            × ((set_operation_mode hal mode p).1 ≡ record p {
              sub_hal_list =
                  map (in_mode p.current_operation_mode) (map (in_mode mode) f.before)
                  ++ in_mode mode f.failing ∷ f.after;
            }))
  unfolding set_operation_mode
  set_operation_mode_cases mode p = elim (set_modes_cases mode p.sub_hal_list) [
    | inl (all, fine, modes) ↦ rw fine (
        inl
          (all, fine, ap (λ l. record p { sub_hal_list = l; current_operation_mode = mode }) modes))
    | inr (f, count, modes) ↦ rw f.fails (
        inr (
          f,
          ap (λ l. record p { sub_hal_list = l })
              (rw (count, modes, sym (length-map (in_mode mode) f.before))
                (reset_modes-append p.current_operation_mode (map (in_mode mode) f.before)
                  (in_mode mode f.failing ∷ f.after))),
        ))
  ]
