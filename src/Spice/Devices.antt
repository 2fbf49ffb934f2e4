-- ===== src/Spice/Devices.antt =====
-- The devices of `lower_names`: SPICE does not tell upper from lower case, so their keys must
-- differ.
use circuitc.Prelude.{
  ◌≡◌, ◌≢◌, inl, inr, refl, arith, true, false, List, [], ◌∷◌, ◌++◌, map, Option, none, some, Text,
  All, if◌then◌else◌, Bool-cases,
}
use circuitc.Design.{Component, Design}
use circuitc.Spice.{
  SpiceComponentNameMapping, contains, spice_case_key, unique_mangled, name_component, used_devices,
  component_reference_is_preservable, case_count, component_devices, simulated_components,
  lower_names, device_prefix,
}
use circuitc.Spice.Fresh.{unique_mangled-fresh}
use circuitc.Prelude.Pairwise.{Pairwise, Pairwise-map, Pairwise-weaken}
use circuitc.Spice.Unique.{
  Keeps, IsUsed, Apart, All-IsUsed-Grows, contains-here, contains-there, name_all-Pairwise,
}
use circuitc.Spice.Count.{KeysDiffer, KeysDiffer-Pairwise}

abbrev pub Differ : Text → Text → Type 0
Differ x y = spice_case_key x ≢ spice_case_key y

abbrev kept_device : List Text → Component → Option Text
kept_device references c =
    if component_reference_is_preservable references c then some c.reference else none

name_component-Keeps :
    (references : List Text) (c : Component) (used : List Text)
    → Keeps (kept_device references) Differ (λ x y h. h) used c (name_component references c used)
unfolding name_component unique_mangled
name_component-Keeps references c used =
    elim (Bool-cases (component_reference_is_preservable references c)) [
      | inl kept ↦ rw kept (inl (refl, refl))
      | inr mangled ↦ rw mangled (
          inr (
            refl,
            unique_mangled-fresh (device_prefix c.simulation) (c.reference ++ 0 ∷ c.path) used,
            refl,
          ))
    ]

used_devices-Grows :
    (references : List Text) (c : Component) (cs : List Component) (x : Text)
    → contains (used_devices references cs) x ≡ true
    → contains (used_devices references (c ∷ cs)) x ≡ true
used_devices-Grows references c cs x h =
    elim (Bool-cases (component_reference_is_preservable references c)) [
      | inl kept ↦
          rw kept (contains-there x (spice_case_key c.reference) (used_devices references cs) h)
      | inr mangled ↦ rw mangled h
    ]

used_devices-head :
    (references : List Text) (c : Component) (cs : List Component)
    → IsUsed
        (kept_device references)
        Differ
        (λ x y h. h)
        (used_devices references (c ∷ cs))
        (kept_device references c)
used_devices-head references c cs =
    elim (Bool-cases (component_reference_is_preservable references c)) [
      | inl kept ↦ rw kept (contains-here (spice_case_key c.reference) (used_devices references cs))
      | inr mangled ↦ rw mangled tt
    ]

used_devices-IsUsed :
    (references : List Text) (cs : List Component)
    → All
        (λ c.
          IsUsed
            (kept_device references)
            Differ
            (λ x y h. h)
            (used_devices references cs)
            (kept_device references c))
        cs
used_devices-IsUsed references [] = tt
used_devices-IsUsed references (c ∷ cs) = (
  used_devices-head references c cs,
  All-IsUsed-Grows (kept_device references) Differ (λ x y h. h) (used_devices references cs)
      (used_devices references (c ∷ cs)) cs (used_devices-Grows references c cs)
      (used_devices-IsUsed references cs),
)

abbrev references_of : List Component → List Text
references_of cs = map (λ c. c.reference) cs

all_counted_skips :
    (c : Component) (cs : List Component) → true ≡ false → references_of (c ∷ cs) ≡ references_of cs
all_counted_skips c cs h = absurd cc

abbrev ReferencesDiffer : List Text → Component → Component → Type 0
ReferencesDiffer =
    KeysDiffer (λ _. true) (λ c. c.reference) references_of (λ c cs h. refl) all_counted_skips

counted_once :
    (references : List Text) (c : Component)
    → component_reference_is_preservable references c ≡ true
    → case_count references (spice_case_key c.reference) ≡ 1
counted_once references c kept = ground arith

devices-Apart :
    (references : List Text) (a b : Component)
    → ReferencesDiffer references a b
    → Apart
        (kept_device references)
        Differ
        (λ x y h. h)
        (kept_device references a)
        (kept_device references b)
devices-Apart references a b h =
    elim (Bool-cases (component_reference_is_preservable references a)) [
      | inr mangled ↦ rw mangled tt
      | inl kept ↦ elim (Bool-cases (component_reference_is_preservable references b)) [
        | inr mangled ↦ rw (kept, mangled) tt
        | inl kept_too ↦ rw (kept, kept_too) (h refl refl (counted_once references a kept))
      ]
    ]

abbrev pub DevicesDiffer : SpiceComponentNameMapping → SpiceComponentNameMapping → Type 0
DevicesDiffer a b = Differ a.device b.device

-- No two components of the name map have device names that agree but for case, whatever the design.
pub lower_names-devices : (design : Design) → Pairwise DevicesDiffer (lower_names design).components
unfolding lower_names component_devices
lower_names-devices design =
    let components = simulated_components design in
    let references = references_of components in
    Pairwise-map (λ a b. Differ a.1 b.1) DevicesDiffer _ _ (λ a b h. h)
      (name_all-Pairwise (kept_device references) Differ (λ x y h. h) (name_component references)
        (name_component-Keeps references) components (used_devices references components)
        (used_devices-IsUsed references components)
        (Pairwise-weaken (ReferencesDiffer references) _ components (devices-Apart references) (
          KeysDiffer-Pairwise (λ _. true) (λ c. c.reference) references_of (λ c cs h. refl)
            all_counted_skips references components (λ key. omega arith))))
