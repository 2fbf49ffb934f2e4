-- ===== src/Validate/Ready.antt =====
-- A valid design can be lowered: the pins of its models are on declared nets.
use circuitc.Prelude.{
  ◌≡◌, ◌≢◌, inl, inr, refl, sym, ap, subst, ◌∙◌, true, false, List, [], ◌∷◌, map, Option, none,
  some, Text, text_eq, text_eq_iff, All, Option-cases, Bool-cases,
}
use circuitc.Prelude.Sets.{contains}
use circuitc.Prelude.Maps.{get}
use circuitc.Prelude.Maps.Found.{Any, Any-map, Any-All, Any-weaken, IsEntry, get-collect}
use circuitc.Prelude.Pairwise.{Pairwise}
use circuitc.Design.{
  Design, RectNm, Net, Component, Connection, ConnectionState, connected, no_connect,
  SimulationModel, model_pins, state_net, SimulationAnalysis,
}
use circuitc.Spice.{net_for_pin, find_connection, lower_names}
use circuitc.Spice.Netlist.{LoweredSpice, lower_netlist_with_analysis}
use circuitc.Spice.Emitted.{IsReady}
use circuitc.Spice.Total.{lower_netlist_total}
use circuitc.Validate.Nets.{net_name, module_path}
use circuitc.Validate.Physical.{is_wired_pin, is_connected, check_model_pin, validate_simulation}
use circuitc.Validate.Component.{
  connection_pin, connection_map, check_connection, check_connections, validate_component,
}
use circuitc.Validate.Whole.{validate}
use circuitc.Validate.Report.{is_repeated}
use circuitc.Validate.Passed.{validate-Passed, validate_component-Passed}
use circuitc.Validate.Clean.{
  IsClean, split, report_if-IsClean, report_if-not-IsClean, when_some-IsClean, each_after-All,
  each_after-differ,
}

-- Its net, if any, is declared.
abbrev IsOnNet : List Text → Connection → Type 0
IsOnNet names connection =
    (net : Text) → state_net connection.state ≡ some net → contains names net ≡ true

check_connection-clean :
    (names pins : List Text) (path : Text) (before : List Connection) (c : Connection)
    → IsClean (check_connection names pins path before c)
    → (is_repeated connection_pin before c ≡ false) × IsOnNet names c
unfolding check_connection
check_connection-clean names pins path before c h =
    let (h1, on_net) = split h in
    let (h2, _) = split h1 in
    let (_, repeated) = split h2 in
    (
      report_if-IsClean _ _ _ repeated,
      λ net e. report_if-not-IsClean _ _ _ (when_some-IsClean (state_net c.state) _ net e on_net),
    )

-- Among connections of different pins, the first one of a pin is the one.
find_connection-Any :
    (c : Connection) (cs : List Connection)
    → Pairwise (λ a b. connection_pin a ≢ connection_pin b) cs
    → Any (λ x. x ≡ c) cs
    → find_connection c.pin cs ≡ state_net c.state
find_connection-Any c [] _ found = elim found [ ]
find_connection-Any c (x ∷ xs) (apart, rest) (inl here) =
    rw here ((rw ((text_eq_iff c.pin c.pin).1 refl) refl))
find_connection-Any c (x ∷ xs) (apart, rest) (inr later) = elim (Bool-cases (text_eq x.pin c.pin)) [
  | inl same ↦ absurd (elsewhere xs apart later ((text_eq_iff x.pin c.pin).0 same))
  | inr other ↦ rw other (find_connection-Any c xs rest later)
]
  where
    elsewhere :
        (xs : List Connection)
        → All (λ b. connection_pin x ≢ connection_pin b) xs
        → Any (λ y. y ≡ c) xs
        → x.pin ≡ c.pin
        → ⊥
    elsewhere [] a found e = elim found [ ]
    elsewhere (y ∷ ys) (p, a) (inl h) e = p (e ∙ sym (ap connection_pin h))
    elsewhere (y ∷ ys) (p, a) (inr h) e = elsewhere ys a h e

-- A pin on a net that is declared.
abbrev IsPinOnNet : List Text → Component → Text → Type 0
IsPinOnNet names component pin =
    (net : Text) × (net_for_pin component pin ≡ some net) × (contains names net ≡ true)

connected_net :
    (c : Connection) → is_connected c.state ≡ true → (net : Text) × (state_net c.state ≡ some net)
connected_net c h = by_state c.state h
  where
    by_state :
        (s : ConnectionState) → is_connected s ≡ true → (net : Text) × (state_net s ≡ some net)
    by_state (connected net) h = (net, refl)
    by_state no_connect h = absurd cc

pin_on_net :
    (names : List Text) (component : Component) (pin path : Text)
    → All (IsOnNet names) component.connections
    → Pairwise (λ a b. connection_pin a ≢ connection_pin b) component.connections
    → IsClean (check_model_pin (connection_map component.connections) path pin)
    → IsPinOnNet names component pin
unfolding check_model_pin connection_map net_for_pin
pin_on_net names component pin path declared apart h =
    found (get pin (connection_map component.connections)) refl (report_if-not-IsClean _ _ _ h)
  where
    found :
        (o : Option Connection)
        → get pin (connection_map component.connections) ≡ o
        → is_wired_pin o ≡ true
        → IsPinOnNet names component pin
    found none e wired = absurd cc
    found (some c) e wired =
        let entry =
          Any-map (IsEntry pin c) (λ x. (connection_pin x, x)) component.connections
            (get-collect pin _ c e) in
        let here =
          Any-weaken (λ x. IsEntry pin c (connection_pin x, x)) (λ x. x ≡ c) component.connections
            (λ x found. found.1) entry in
        let (net, state) = connected_net c wired in
        (
          net,
          subst (λ t. find_connection t component.connections ≡ some net)
              (pin_of component.connections entry)
              (find_connection-Any c component.connections apart here ∙ state),
          Any-All (IsOnNet names) c component.connections declared here net state,
        )
      where
        pin_of :
            (xs : List Connection) → Any (λ x. IsEntry pin c (connection_pin x, x)) xs → c.pin ≡ pin
        pin_of [] found = elim found [ ]
        pin_of (x ∷ xs) (inl (p, same)) = sym (ap connection_pin same) ∙ p
        pin_of (x ∷ xs) (inr later) = pin_of xs later

model_pins_on_net :
    (names : List Text) (c : Component) (model : SimulationModel) (path : Text)
    → All (IsOnNet names) c.connections
    → Pairwise (λ a b. connection_pin a ≢ connection_pin b) c.connections
    → IsClean (validate_simulation c model (connection_map c.connections) path)
    → IsPinOnNet names c (model_pins model).0 × IsPinOnNet names c (model_pins model).1
unfolding validate_simulation
model_pins_on_net names c model path declared apart h =
    let (h1, _) = split h in
    let (h2, negative) = split h1 in
    let (_, positive) = split h2 in
    (
      pin_on_net names c _ path declared apart positive,
      pin_on_net names c _ path declared apart negative,
    )

pub clean_component :
    (outline : RectNm) (names modules : List Text) (before : List Component) (c : Component)
    → IsClean (validate_component outline names modules before c)
    → All (IsOnNet names) c.connections
      × Pairwise (λ a b. connection_pin a ≢ connection_pin b) c.connections
      × ((model : SimulationModel)
          → c.simulation ≡ some model
          → IsPinOnNet names c (model_pins model).0 × IsPinOnNet names c (model_pins model).1)
unfolding check_connections
clean_component outline names modules before c h =
    let passed = validate_component-Passed outline names modules before c h in
    let (looped, _) = split passed.connections in
    let declared =
      each_after-All _ (IsOnNet names) [] c.connections
        (λ before x clean. (check_connection-clean names _ _ before x clean).1) looped in
    let apart =
      each_after-differ _ connection_pin
        (λ before x clean. (check_connection-clean names _ _ before x clean).0) [] c.connections
        looped in
    (
      declared,
      apart,
      λ model e.
          model_pins_on_net names c model _ declared apart
            (when_some-IsClean c.simulation _ model e passed.simulation),
    )

component-IsReady :
    (nets : List Net) (outline : RectNm) (modules : List Text) (before : List Component)
    (c : Component)
    → IsClean (validate_component outline (map net_name nets) modules before c)
    → IsReady nets c
component-IsReady nets outline modules before c h = elim (Option-cases c.simulation) [
  | inl unmodelled ↦ inl unmodelled
  | inr (model, e) ↦
      let (_, _, wired) = clean_component outline (map net_name nets) modules before c h in
      let ((positive, p, p_declared), (negative, n, n_declared)) = wired model e in
      inr (
        model,
        record {
          modelled = e;
          positive = positive;
          positive_net = p;
          positive_declared = p_declared;
          negative = negative;
          negative_net = n;
          negative_declared = n_declared;
        },
      )
]

-- A valid design has a netlist, for any analysis: where `validate` reports nothing, no lookup of
-- a pin, a node or a device fails when the design is lowered.
pub validate-lowers :
    (d : Design) (analysis : Option SimulationAnalysis)
    → validate d ≡ []
    → (lowered : LoweredSpice) × (lower_netlist_with_analysis d analysis ≡ some lowered)
      × (lowered.name_map ≡ lower_names d)
validate-lowers d analysis h = lower_netlist_total d analysis (
    each_after-All _ (IsReady d.nets) [] d.components
      (λ before c clean.
        component-IsReady d.nets d.board.outline (map module_path d.modules) before c clean)
      (validate-Passed d h).components)
