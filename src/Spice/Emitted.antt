-- ===== src/Spice/Emitted.antt =====
-- The nets that wired components emit get nodes, and each name is a key of the name map.
use circuitc.Prelude.{
  ◌≡◌, ◌⊎◌, refl, ap, ◌∙◌, Bool, true, false, ◌||◌, List, [], ◌∷◌, map, Option, none, some, Text,
  All, text_eq_iff,
}
use circuitc.Design.{Component, Design, Net, SimulationModel, model_pins}
use circuitc.Prelude.Sorting.{compare_text}
use circuitc.Spice.{
  contains, name_all, name_net, name_component, net_for_pin, pins_of, insert_some,
  emitted_net_names, emitted_nets, simulated_components, net_nodes, component_devices, lower_names,
  signal_names,
}
use circuitc.Spice.Unique.{contains-here, contains-there}
use circuitc.Spice.Netlist.{node_pairs, device_pairs}
use circuitc.Spice.Found.{has-filter, has-sort_by}

abbrev pub IsDeclared : List Net → Text → Type 0
IsDeclared nets name = contains (map (λ net. net.name) nets) name ≡ true

-- Both pins of the model are connected to declared nets.
pub record IsWired (nets : List Net) (component : Component) (model : SimulationModel)
    : Type 0 where
  pub modelled : component.simulation ≡ some model
  pub positive : Text
  pub positive_net : net_for_pin component (model_pins model).0 ≡ some positive
  pub positive_declared : contains (map (λ net. net.name) nets) positive ≡ true
  pub negative : Text
  pub negative_net : net_for_pin component (model_pins model).1 ≡ some negative
  pub negative_declared : contains (map (λ net. net.name) nets) negative ≡ true

-- A component is wired or has no model.
abbrev pub IsReady : List Net → Component → Type 0
IsReady nets component =
    (component.simulation ≡ none) ⊎ ((model : SimulationModel) × IsWired nets component model)

-- Its nets are among the names that the design's components emit.
abbrev pub Emits : List Text → Component → Type 0
Emits names component =
    (model : SimulationModel) (positive negative : Text)
    → component.simulation ≡ some model
    → net_for_pin component (model_pins model).0 ≡ some positive
    → net_for_pin component (model_pins model).1 ≡ some negative
    → (contains names positive ≡ true) × (contains names negative ≡ true)

pins_emitted :
    (component : Component) (names : List Text)
    → Emits (pins_of component component.simulation names) component
unfolding net_for_pin
pins_emitted component names model positive negative m p n =
    rw (m, p, n)
      (
        contains-here positive (negative ∷ names),
        contains-there negative positive (negative ∷ names) (contains-here negative names),
      )

insert_some-keeps :
    (o : Option Text) (names : List Text) (x : Text)
    → contains names x ≡ true
    → contains (insert_some o names) x ≡ true
insert_some-keeps none names x h = h
insert_some-keeps (some y) names x h = contains-there x y names h

pins_keep :
    (component : Component) (o : Option SimulationModel) (names : List Text) (x : Text)
    → contains names x ≡ true
    → contains (pins_of component o names) x ≡ true
pins_keep component none names x h = h
pins_keep component (some model) names x h =
    insert_some-keeps (net_for_pin component (model_pins model).0) _ x
      (insert_some-keeps (net_for_pin component (model_pins model).1) names x h)

pub All-Emits :
    (components : List Component) → All (Emits (emitted_net_names components)) components
All-Emits [] = tt
All-Emits (c ∷ cs) = (pins_emitted c (emitted_net_names cs), widened cs (All-Emits cs))
  where
    widened :
        (ds : List Component)
        → All (Emits (emitted_net_names cs)) ds
        → All (Emits (emitted_net_names (c ∷ cs))) ds
    widened [] h = tt
    widened (d ∷ ds) (e, h) = (
      λ model positive negative m p n.
          let (a, b) = e model positive negative m p n in
          (
            pins_keep c c.simulation (emitted_net_names cs) positive a,
            pins_keep c c.simulation (emitted_net_names cs) negative b,
          ),
      widened ds h,
    )

-- A declared net that a component emits is among the nets that get a node.
pub emitted_has :
    (design : Design) (name : Text)
    → IsDeclared design.nets name
    → contains (emitted_net_names design.components) name ≡ true
    → contains (map (λ net. net.name) (emitted_nets design)) name ≡ true
unfolding emitted_nets
emitted_has design name declared emitted =
    has-sort_by (λ net. net.name) name (λ left right. compare_text left.name right.name) _
    ∙ has-filter (λ net. net.name) name
        (λ net. net.is_ground || contains (emitted_net_names design.components) net.name)
        design.nets
        (λ net same. kept net.is_ground (
          ap (contains (emitted_net_names design.components)) ((text_eq_iff net.name name).0 same)
          ∙ emitted))
        declared
  where
    kept : (g : Bool) {b : Bool} → b ≡ true → (g || b) ≡ true
    kept true h = refl
    kept false h = h

name_all-keys :
    {A : Type 0} (step : A → List Text → Text × List Text) (key : A → Text) (items : List A)
    (used : List Text)
    → map (λ e. key e.0) (name_all step items used) ≡ map key items
name_all-keys step key [] used = refl
name_all-keys step key (a ∷ items) used =
    ap (λ t. key a ∷ t) (name_all-keys step key items (step a used).1)

map-map :
    {A B C : Type 0} (g : B → C) (f : A → B) (xs : List A)
    → map g (map f xs) ≡ map (λ x. g (f x)) xs
map-map g f [] = refl
map-map g f (x ∷ xs) = ap (λ t. g (f x) ∷ t) (map-map g f xs)

pub node_keys :
    (design : Design)
    → map (λ p. p.0) (node_pairs (lower_names design)) ≡ map (λ net. net.name) (emitted_nets design)
unfolding lower_names net_nodes
node_keys design =
    map-map _ _ _
    ∙ map-map _ _ (net_nodes design)
    ∙ name_all-keys (name_net (signal_names (emitted_nets design))) (λ net. net.name)
        (emitted_nets design) _

pub device_keys :
    (design : Design)
    → map (λ p. p.0) (device_pairs (lower_names design))
      ≡ map (λ c. c.path) (simulated_components design)
unfolding lower_names component_devices
device_keys design =
    map-map _ _ _
    ∙ map-map _ _ (component_devices design)
    ∙ name_all-keys (name_component (map (λ c. c.reference) (simulated_components design)))
        (λ c. c.path) (simulated_components design) _
