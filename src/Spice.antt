-- ===== src/Spice.antt =====
-- src/spice.rs: the names of nodes and devices. Strings are lists of bytes, which for a literal are
-- its characters; a `BTreeSet` of strings is a list, asked by `contains`.
pub mod Fresh
pub mod Unique
pub mod Count
pub mod Devices
pub mod Nodes
pub mod Netlist
pub mod Found
pub mod Emitted
pub mod Total
mod Tests
use circuitc.Prelude.{
  ℕ, zero, suc, ◌+◌, ◌-◌, ◌/◌, ◌%◌, Bool, true, false, not, ◌&&◌, ◌||◌, List, [], ◌∷◌, ◌++◌, map,
  Option, none, some, Text, codes, length, text_eq, if◌then◌else◌, ◌==◌, leb, ltb,
}
use circuitc.Prelude.Decimal.{to_decimal}
use circuitc.Design.{
  Component, Connection, Design, Net, SimulationModel, resistor, dc_voltage_source, model_pins,
  state_net,
}
use circuitc.Prelude.Sorting.{compare_text, sort_by}
pub use circuitc.Prelude.Sets.{contains, filter}

pub record SpiceNetNameMapping : Type 0 where
  pub net : Text
  pub node : Text

pub record SpiceComponentNameMapping : Type 0 where
  pub path : Text
  pub reference : Text
  pub device : Text

pub record SpiceNameMap : Type 0 where
  pub nets : List SpiceNetNameMapping
  pub components : List SpiceComponentNameMapping

abbrev pub to_ascii_uppercase : ℕ → ℕ
to_ascii_uppercase c = if leb b'a' c && leb c b'z' then c - 32 else c

unfoldable pub spice_case_key : Text → Text
spice_case_key value = map to_ascii_uppercase value

-- The entry of `case_counts` under the key; every key that is looked up has one.
unfoldable pub case_count : List Text → Text → ℕ
case_count [] key = 0
case_count (value ∷ values) key =
    (if text_eq (spice_case_key value) key then 1 else 0) + case_count values key

abbrev pub is_alphanumeric : ℕ → Bool
is_alphanumeric c = leb b'0' c && leb c b'9' || leb b'A' c && leb c b'Z' || leb b'a' c && leb c b'z'

abbrev pub all_identifier : Text → Bool
all_identifier [] = true
all_identifier (c ∷ cs) = (is_alphanumeric c || c == b'_') && all_identifier cs

abbrev pub spice_identifier_is_supported : Text → Bool
spice_identifier_is_supported [] = false
spice_identifier_is_supported (c ∷ cs) = all_identifier (c ∷ cs)

unfoldable pub spice_node_is_reserved : Text → Bool
spice_node_is_reserved value =
    text_eq value (codes "0") || text_eq (spice_case_key value) (codes "GND")

abbrev pub hex_digit : ℕ → ℕ
hex_digit n = if ltb n 10 then b'0' + n else b'A' + (n - 10)

unfoldable pub hex_encode : Text → Text
hex_encode [] = []
hex_encode (byte ∷ bytes) = hex_digit (byte / 16) ∷ hex_digit (byte % 16) ∷ hex_encode bytes

-- The candidate after `discriminator` collisions.
unfoldable pub candidate : Text → ℕ → Text
candidate base zero = base
candidate base (suc n) = base ++ (codes "_" ++ to_decimal (suc n))

-- The loop of `unique_mangled`, on fuel.
unfoldable pub mangle_loop : ℕ → Text → ℕ → List Text → Text
mangle_loop zero base discriminator used = candidate base discriminator
mangle_loop (suc fuel) base discriminator used =
    let later = mangle_loop fuel base (suc discriminator) used in
    if contains used (spice_case_key (candidate base discriminator))
    then later
    else candidate base discriminator

-- The name and the set behind the call. Of more candidates than the set has elements, one is not
-- in it.
unfoldable pub unique_mangled : Text → Text → List Text → Text × List Text
unique_mangled prefix source used =
    let text = mangle_loop (length used) (prefix ++ codes "_" ++ hex_encode source) 0 used in
    (text, spice_case_key text ∷ used)

-- A loop that names each item and threads the set of used keys.
module _ {A : Type 0} (name_one : A → List Text → Text × List Text) where
  abbrev pub name_all : List A → List Text → List (A × Text)
  name_all [] used = []
  name_all (item ∷ items) used =
      let (text, used') = name_one item used in (item, text) ∷ name_all items used'

abbrev pub find_connection : Text → List Connection → Option Text
find_connection pin [] = none
find_connection pin (c ∷ cs) =
    let later = find_connection pin cs in if text_eq c.pin pin then state_net c.state else later

-- `Component::net_for_pin`
unfoldable pub net_for_pin : Component → Text → Option Text
net_for_pin component pin = find_connection pin component.connections

abbrev pub is_simulated : Component → Bool
is_simulated component = elim component.simulation [ none ↦ false | some _ ↦ true ]

abbrev insert_some : Option Text → List Text → List Text
insert_some none names = names
insert_some (some name) names = name ∷ names

abbrev pins_of : Component → Option SimulationModel → List Text → List Text
pins_of component none names = names
pins_of component (some model) names =
    insert_some (net_for_pin component (model_pins model).0)
      (insert_some (net_for_pin component (model_pins model).1) names)

abbrev pub emitted_net_names : List Component → List Text
emitted_net_names [] = []
emitted_net_names (component ∷ components) =
    pins_of component component.simulation (emitted_net_names components)

-- The nets that get a node, by name.
unfoldable pub emitted_nets : Design → List Net
emitted_nets design =
    sort_by (λ left right. compare_text left.name right.name)
      (filter (λ net. net.is_ground || contains (emitted_net_names design.components) net.name)
        design.nets)

abbrev pub signal_names : List Net → List Text
signal_names nets = map (λ net. net.name) (filter (λ net. not net.is_ground) nets)

abbrev pub can_preserve : List Text → Net → Bool
can_preserve names net =
    spice_identifier_is_supported net.name
    && not (spice_node_is_reserved net.name)
    && case_count names (spice_case_key net.name) == 1

-- The keys of the names that are kept, added to the set before any name is mangled.
abbrev pub used_nodes : List Text → List Net → List Text → List Text
used_nodes names [] used = used
used_nodes names (net ∷ nets) used =
    let later = used_nodes names nets used in
    if not net.is_ground && can_preserve names net then spice_case_key net.name ∷ later else later

unfoldable pub name_net : List Text → Net → List Text → Text × List Text
name_net names net used =
    if net.is_ground
    then (codes "0", used)
    else if can_preserve names net
    then (net.name, used)
    else unique_mangled (codes "CCN") net.name used

unfoldable pub net_nodes : Design → List (Net × Text)
net_nodes design =
    let nets = emitted_nets design in
    let names = signal_names nets in
    name_all (name_net names) nets (used_nodes names nets (codes "0" ∷ []))

abbrev pub starts_with_either : ℕ → ℕ → Text → Bool
starts_with_either a b [] = false
starts_with_either a b (c ∷ _) = c == a || c == b

abbrev pub compatible_prefix : Option SimulationModel → Text → Bool
compatible_prefix (some (resistor _ _ _)) reference = starts_with_either b'R' b'r' reference
compatible_prefix (some (dc_voltage_source _ _ _)) reference =
    starts_with_either b'V' b'v' reference
compatible_prefix none reference = false

abbrev pub component_reference_is_preservable : List Text → Component → Bool
component_reference_is_preservable references component =
    compatible_prefix component.simulation component.reference
    && spice_identifier_is_supported component.reference
    && case_count references (spice_case_key component.reference) == 1

abbrev pub device_prefix : Option SimulationModel → Text
device_prefix (some (dc_voltage_source _ _ _)) = codes "VCC"
device_prefix _ = codes "RCC"

unfoldable pub simulated_components : Design → List Component
simulated_components design =
    sort_by (λ left right. compare_text left.path right.path)
      (filter is_simulated design.components)

abbrev pub used_devices : List Text → List Component → List Text
used_devices references [] = []
used_devices references (component ∷ components) =
    let later = used_devices references components in
    if component_reference_is_preservable references component
    then spice_case_key component.reference ∷ later
    else later

unfoldable pub name_component : List Text → Component → List Text → Text × List Text
name_component references component used =
    if component_reference_is_preservable references component
    then (component.reference, used)
    else unique_mangled (device_prefix component.simulation)
        (component.reference ++ 0 ∷ component.path) used

unfoldable pub component_devices : Design → List (Component × Text)
component_devices design =
    let components = simulated_components design in
    let references = map (λ component. component.reference) components in
    name_all (name_component references) components (used_devices references components)

unfoldable pub lower_names : Design → SpiceNameMap
lower_names design = record {
  nets = map (λ entry. record { net = entry.0.name; node = entry.1 }) (net_nodes design);
  components =
      map (λ entry. record { path = entry.0.path; reference = entry.0.reference; device = entry.1 })
        (component_devices design);
}
