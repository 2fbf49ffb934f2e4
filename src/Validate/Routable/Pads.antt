-- ===== src/Validate/Routable/Pads.antt =====
-- src/design.rs: `net_for_pad`. The pads of a net, told from the declarations of a design rather
-- than by lookups, and what a valid design says of them.
use circuitc.Prelude.{
  ◌≡◌, ◌≢◌, inl, inr, refl, sym, ap, ◌∙◌, false, List, [], ◌∷◌, Option, none, some, Text, text_eq,
  text_eq_iff, Bool-cases,
}
use circuitc.Prelude.Maybe.{◌>>=◌}
use circuitc.Prelude.Maps.Found.{Any, Any-both}
use circuitc.Prelude.Pairwise.{Pairwise}
use circuitc.Design.{
  RectNm, Component, Connection, ConnectionState, connected, no_connect, state_net, Pad,
  PhysicalImplementation, PinPadBinding,
}
use circuitc.Spice.{find_connection, net_for_pin}
use circuitc.Validate.Component.{connection_pin, validate_component}
use circuitc.Validate.Routing.{pin_bound_to, pin_for_pad, net_for_pad}
use circuitc.Validate.Physical.{check_binding, check_pad, validate_physical}
use circuitc.Validate.Report.{is_repeated}
use circuitc.Validate.Passed.{validate_component-Passed}
use circuitc.Validate.Ready.{clean_component}
use circuitc.Validate.Clean.{
  IsClean, split, report_if-IsClean, when_some-IsClean, each_after-differ,
}

-- A connection joins the pin to the net.
abbrev IsJoined : Text → Text → Component → Type 0
IsJoined net pin c = Any (λ k. (k.pin ≡ pin) × (k.state ≡ connected net)) c.connections

-- A binding puts the pad of the number under a pin that is joined to the net.
abbrev pub IsWired : Text → Component → PhysicalImplementation → Text → Type 0
IsWired net c physical number =
    Any (λ b. (b.pad ≡ number) × IsJoined net b.pin c) physical.pin_pad_bindings

-- A pad of a placed component of the design that is wired to the net.
pub record NetPad (components : List Component) (net : Text) : Type 0 where
  pub component : Component
  pub physical : PhysicalImplementation
  pub pad : Pad
  pub of_design : Any (λ c. c ≡ component) components
  pub placed : component.physical ≡ some physical
  pub of_footprint : Any (λ p. p ≡ pad) physical.footprint.pads
  pub wired : IsWired net component physical pad.number

abbrev pub bound_pad : PinPadBinding → Text
bound_pad binding = binding.pad

abbrev pub pad_number : Pad → Text
pad_number pad = pad.number

-- No pin is connected twice, no pad is bound twice, and no two pads of a footprint have one
-- number.
abbrev pub IsUnambiguous : Component → Type 0
IsUnambiguous c =
    Pairwise (λ a b. connection_pin a ≢ connection_pin b) c.connections
    × ((physical : PhysicalImplementation)
        → c.physical ≡ some physical
        → Pairwise (λ a b. bound_pad a ≢ bound_pad b) physical.pin_pad_bindings
          × Pairwise (λ a b. pad_number a ≢ pad_number b) physical.footprint.pads)

some-inj : {A : Type 0} (a b : A) → some a ≡ some b → a ≡ b
some-inj a b h = cc

connected_to : (s : ConnectionState) (net : Text) → state_net s ≡ some net → s ≡ connected net
connected_to (connected other) net h = ap connected (some-inj other net h)
connected_to no_connect net h = absurd cc

joined-found :
    (net pin : Text) (cs : List Connection)
    → find_connection pin cs ≡ some net
    → Any (λ k. (k.pin ≡ pin) × (k.state ≡ connected net)) cs
joined-found net pin [] h = absurd cc
joined-found net pin (c ∷ cs) h = elim (Bool-cases (text_eq c.pin pin)) [
  | inl same ↦ inl ((text_eq_iff c.pin pin).0 same, connected_to c.state net (rw same at h))
  | inr other ↦ inr (joined-found net pin cs (rw other at h))
]

found-joined :
    (net pin : Text) (cs : List Connection)
    → Pairwise (λ a b. connection_pin a ≢ connection_pin b) cs
    → Any (λ k. (k.pin ≡ pin) × (k.state ≡ connected net)) cs
    → find_connection pin cs ≡ some net
found-joined net pin [] apart found = elim found [ ]
found-joined net pin (c ∷ cs) apart (inl (same, state)) =
    rw ((text_eq_iff c.pin pin).1 same) (ap state_net state)
found-joined net pin (c ∷ cs) (apart, rest) (inr later) = elim (Bool-cases (text_eq c.pin pin)) [
  | inl same ↦ absurd (
      Any-both (λ k. connection_pin c ≢ connection_pin k) _ cs
        (λ k differs here. differs ((text_eq_iff c.pin pin).0 same ∙ sym here.0)) apart later)
  | inr other ↦ rw other (found-joined net pin cs rest later)
]

module _ (net : Text) (c : Component) (number : Text) where
  wired-found :
      (pin : Text) (bindings : List PinPadBinding)
      → pin_bound_to number bindings ≡ some pin
      → find_connection pin c.connections ≡ some net
      → Any (λ b. (b.pad ≡ number) × IsJoined net b.pin c) bindings
  wired-found pin [] h k = absurd cc
  wired-found pin (b ∷ bs) h k = elim (Bool-cases (text_eq b.pad number)) [
    | inl same ↦
        let here = some-inj b.pin pin (rw same at h) in
        inl (
          (text_eq_iff b.pad number).0 same,
          joined-found net b.pin c.connections (ap (λ p. find_connection p c.connections) here ∙ k),
        )
    | inr other ↦ inr (wired-found pin bs (rw other at h) k)
  ]

  found-wired :
      (bindings : List PinPadBinding)
      → Pairwise (λ a b. connection_pin a ≢ connection_pin b) c.connections
      → Pairwise (λ a b. bound_pad a ≢ bound_pad b) bindings
      → Any (λ b. (b.pad ≡ number) × IsJoined net b.pin c) bindings
      → (pin : Text) × (pin_bound_to number bindings ≡ some pin)
        × (find_connection pin c.connections ≡ some net)
  found-wired [] pins apart found = elim found [ ]
  found-wired (b ∷ bs) pins apart (inl (same, joined)) = (
    b.pin,
    rw ((text_eq_iff b.pad number).1 same) refl,
    found-joined net b.pin c.connections pins joined,
  )
  found-wired (b ∷ bs) pins (apart, rest) (inr later) = elim (Bool-cases (text_eq b.pad number)) [
    | inl same ↦ absurd (
        Any-both (λ k. bound_pad b ≢ bound_pad k) _ bs
          (λ k differs here. differs ((text_eq_iff b.pad number).0 same ∙ sym here.0)) apart later)
    | inr other ↦
        let (pin, bound, joined) = found-wired bs pins rest later in (pin, rw other bound, joined)
  ]

  -- What the lookups find is wired.
  pub net_for_pad-IsWired :
      (physical : PhysicalImplementation)
      → c.physical ≡ some physical
      → net_for_pad c number ≡ some net
      → IsWired net c physical number
  unfolding net_for_pad pin_for_pad net_for_pin
  net_for_pad-IsWired physical placed h =
      by_pin (pin_bound_to number physical.pin_pad_bindings) refl (rw placed at h)
    where
      by_pin :
          (o : Option Text)
          → pin_bound_to number physical.pin_pad_bindings ≡ o
          → (o >>= λ pin. find_connection pin c.connections) ≡ some net
          → IsWired net c physical number
      by_pin none e h = absurd cc
      by_pin (some pin) e h = wired-found pin physical.pin_pad_bindings e h

  -- What is wired the lookups find, where nothing is connected, bound or numbered twice.
  pub net_for_pad-wired :
      (physical : PhysicalImplementation)
      → IsUnambiguous c
      → c.physical ≡ some physical
      → IsWired net c physical number
      → net_for_pad c number ≡ some net
  unfolding net_for_pad pin_for_pad net_for_pin
  net_for_pad-wired physical (pins, apart) placed wired =
      let (bindings, _) = apart physical placed in
      let (pin, bound, joined) = found-wired physical.pin_pad_bindings pins bindings wired in
      rw (placed, bound) joined

clean_binding :
    (connections : List (Text × Connection)) (path : Text) (before : List PinPadBinding)
    (b : PinPadBinding)
    → IsClean (check_binding connections path before b)
    → is_repeated bound_pad before b ≡ false
unfolding check_binding
clean_binding connections path before b h =
    let (_, repeated) = split h in report_if-IsClean _ _ _ repeated

clean_number :
    (outline : RectNm) (physical : PhysicalImplementation) (path : Text) (before : List Pad)
    (p : Pad)
    → IsClean (check_pad outline physical path before p)
    → is_repeated pad_number before p ≡ false
unfolding check_pad
clean_number outline physical path before p h =
    let (h1, _) = split h in
    let (h2, _) = split h1 in
    let (h3, _) = split h2 in
    let (h4, _) = split h3 in
    let (h5, _) = split h4 in
    let (h6, _) = split h5 in let (_, repeated) = split h6 in report_if-IsClean _ _ _ repeated

physical-apart :
    (c : Component) (physical : PhysicalImplementation) (outline : RectNm)
    (connections : List (Text × Connection))
    → IsClean (validate_physical c physical outline connections)
    → Pairwise (λ a b. bound_pad a ≢ bound_pad b) physical.pin_pad_bindings
      × Pairwise (λ a b. pad_number a ≢ pad_number b) physical.footprint.pads
unfolding validate_physical
physical-apart c physical outline connections h =
    let (h1, _) = split h in
    let (h2, _) = split h1 in
    let (h3, pads) = split h2 in
    let (_, bindings) = split h3 in
    (
      each_after-differ _ bound_pad (clean_binding connections c.path) [] physical.pin_pad_bindings
          bindings,
      each_after-differ _ pad_number (clean_number outline physical c.path) []
          physical.footprint.pads pads,
    )

-- A component that validation accepts is unambiguous.
pub component-IsUnambiguous :
    (outline : RectNm) (names modules : List Text) (before : List Component) (c : Component)
    → IsClean (validate_component outline names modules before c)
    → IsUnambiguous c
component-IsUnambiguous outline names modules before c h =
    let passed = validate_component-Passed outline names modules before c h in
    let (_, pins, _) = clean_component outline names modules before c h in
    (pins, λ p e. physical-apart c p outline _ (when_some-IsClean c.physical _ p e passed.physical))
