-- ===== src/Subhal/SameReports.antt =====
-- The Sensor of the sub-HAL and that of the AIDL service: the placement, the reports and the run loop.
use mathlib.Core.Path.{fun_ext}
use bosch_mems_android_hal.Common.{
  ℕ, ℤ, pos, negsuc, ◌≡◌, refl, inl, inr, List, [], ◌∷◌, Option, none, some, FloatOps, Option-cases,
  List-cases,
}
use bosch_mems_android_hal.Aidl.Types.{
  Orientation, Location, Configuration, AdditionalInfo, AStatus,
}
use bosch_mems_android_hal.Aidl.Placement as AidlPlacement
use bosch_mems_android_hal.Subhal.Placement.{
  set_sensor_placement_data, set_axis, set_orientation, frame_of, placement_frame,
  get_sensor_placement, first_of, get_location, get_orientation,
}

module _ {F : Type 0} where
  set-same :
      (frame : List F) (i : ℤ) (v : F)
      → set_sensor_placement_data frame i v ≡ AidlPlacement.set_sensor_placement_data frame i v
  unfolding set_sensor_placement_data AidlPlacement.set_sensor_placement_data
  set-same frame (pos i) v = refl
  set-same frame (negsuc n) v = refl

  set-is : set_sensor_placement_data {F = F} ≡ AidlPlacement.set_sensor_placement_data {F = F}
  set-is = fun_ext (λ frame. fun_ext (λ i. fun_ext (λ v. set-same frame i v)))

module _ {F : Type 0} (ops : FloatOps F) where
  frame-same :
      (n : ℕ) (l : Location F) (o : Orientation)
      → frame_of ops n l o ≡ AidlPlacement.placement_values ops n l o
  unfolding frame_of set_orientation set_axis AidlPlacement.placement_values
      AidlPlacement.set_rotation AidlPlacement.set_axis AidlPlacement.set_sensor_placement_data
  frame-same n l o = rw (set-is {F = F}) refl

  abbrev pub IsPlaced : ℕ → Option (List (Configuration F)) → List F → Type 0
  IsPlaced n config values =
      (frames frames' : List (AdditionalInfo F)) (status : AStatus) (v : List F)
      → AidlPlacement.get_sensor_placement ops n config values frames ≡ some (status, v, frames')
      → (get_sensor_placement ops n config frames).1 ≡ frames'

  pub placement-IsPlaced :
      (n : ℕ) (config : Option (List (Configuration F))) (values : List F)
      → IsPlaced n config values
  unfolding AidlPlacement.get_sensor_placement AidlPlacement.get_location
      AidlPlacement.get_orientation get_sensor_placement placement_frame first_of get_location
      get_orientation
  placement-IsPlaced n none values frames frames' status v e = cc
  placement-IsPlaced n (some []) values frames frames' status v e = cc
  placement-IsPlaced n (some (c ∷ cs)) values frames frames' status v e =
      elim (List-cases c.location) [
        | inl no_location ↦ let e' = rw no_location at e in rw no_location cc
        | inr (l, ls, location) ↦ elim (List-cases c.orientation) [
          | inl no_orientation ↦
              let e' = rw (location, no_orientation) at e in rw (location, no_orientation) cc
          | inr (o, os, orientation) ↦
              elim (Option-cases (AidlPlacement.placement_values ops n l o)) [
                | inl undefined ↦ let e' = rw (location, orientation, undefined) at e in cc
                | inr (w, values_are) ↦
                    let e' = rw (location, orientation, values_are) at e in
                    rw (location, orientation, frame-same n l o, values_are) cc
              ]
        ]
      ]
