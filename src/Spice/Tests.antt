-- ===== src/Spice/Tests.antt =====
-- The names of a design whose net and component names clash, and the theorems at it.
use circuitc.Prelude.{
  ◌≡◌, refl, true, false, inr, some, ◌++◌, ◌-ℤ◌, List, [], ◌∷◌, map, All, Text, codes, text_eq,
}
use circuitc.Design.{
  Design, Component, Net, connected, SimulationAnalysis, dc_operating_point, resistor,
}
use circuitc.Prelude.Decimal.{to_decimal}
use circuitc.Quantity.{exponent_is_valid}
use circuitc.Quantity.Literal.{spice_literal, engineering_parts}
use circuitc.Design.Sample.{resistor_1, small_design}
use circuitc.Prelude.Sorting.{sort_by, insert_by, compare_text}
use circuitc.Spice.{
  lower_names, net_nodes, component_devices, emitted_nets, simulated_components, net_for_pin,
  name_net, name_component, contains, case_count, spice_case_key, spice_node_is_reserved,
  unique_mangled, mangle_loop, candidate, hex_encode,
}
use circuitc.Spice.Fresh.{unique_mangled-fresh}
use circuitc.Spice.Netlist.{LoweredSpice, lower_netlist_with_analysis, component_line, lookup}
use circuitc.Spice.Emitted.{IsReady}
use circuitc.Spice.Total.{lower_netlist_total}
use circuitc.Prelude.Pairwise.{Pairwise}
use circuitc.Spice.Devices.{lower_names-devices, DevicesDiffer}
use circuitc.Spice.Nodes.{lower_names-nodes, NodesDiffer, net_nodes-ground, IsGroundOrNot}

abbrev net_named : Text → Net
net_named name = record { name = name; is_ground = false }

abbrev resistor_2 : Component
resistor_2 = record resistor_1 {
  path = codes "top.r2";
  reference = codes "r1";
  connections =
      record { pin = codes "1"; state = connected (codes "in") }
      ∷ record { pin = codes "2"; state = connected (codes "IN") }
      ∷ [];
}

abbrev clashing : Design
clashing = record small_design {
  nets =
      record { name = codes "GND"; is_ground = true }
      ∷ net_named (codes "in")
      ∷ net_named (codes "IN")
      ∷ net_named (codes "unused")
      ∷ [];
  components = resistor_2 ∷ resistor_1 ∷ [];
}

nodes :
    map (λ m. m.node) (lower_names clashing).nets
    ≡ codes "0" ∷ codes "CCN_494E" ∷ codes "CCN_696E" ∷ []
unfolding lower_names net_nodes component_devices emitted_nets simulated_components net_for_pin
    name_net name_component case_count spice_case_key spice_node_is_reserved unique_mangled
    mangle_loop candidate hex_encode sort_by insert_by compare_text text_eq
nodes = refl

lower_names-nodes_example : Pairwise NodesDiffer (lower_names clashing).nets
lower_names-nodes_example = lower_names-nodes clashing

lower_names-devices_example : Pairwise DevicesDiffer (lower_names clashing).components
lower_names-devices_example = lower_names-devices clashing

net_nodes-ground_example : All IsGroundOrNot (net_nodes clashing)
net_nodes-ground_example = net_nodes-ground clashing

abbrev taken : List Text
taken = codes "CCN_41" ∷ codes "CCN_41_1" ∷ []

unique_mangled-fresh_example :
    contains taken (spice_case_key (unique_mangled (codes "CCN") (codes "A") taken).0) ≡ false
unique_mangled-fresh_example = unique_mangled-fresh (codes "CCN") (codes "A") taken

abbrev wired : Design
wired = record clashing { components = resistor_2 ∷ [] }

wired-IsReady : All (IsReady wired.nets) wired.components
unfolding net_for_pin text_eq
wired-IsReady = (
  inr (
    resistor (codes "r") (codes "1") (codes "2"),
    record {
      modelled = refl;
      positive = codes "in";
      positive_net = refl;
      positive_declared = refl;
      negative = codes "IN";
      negative_net = refl;
      negative_declared = refl;
    },
  ),
  tt,
)

abbrev operating_point : SimulationAnalysis
operating_point = record { path = codes "sim.dc"; kind = dc_operating_point }

lower_netlist_total_example :
    (lowered : LoweredSpice) × (lower_netlist_with_analysis wired (some operating_point)
      ≡ some lowered)
    × (lowered.name_map ≡ lower_names wired)
lower_netlist_total_example = lower_netlist_total wired (some operating_point) wired-IsReady

resistor_line :
    component_line (lower_names wired) (some operating_point) resistor_2
    ≡ some (codes "r1 CCN_696E CCN_494E 10e3" ++ b'\n' ∷ [])
unfolding component_line lookup lower_names net_nodes component_devices emitted_nets
    simulated_components net_for_pin name_net name_component case_count spice_case_key
    spice_node_is_reserved unique_mangled mangle_loop candidate hex_encode sort_by insert_by
    compare_text text_eq spice_literal engineering_parts exponent_is_valid to_decimal ◌-ℤ◌
resistor_line = refl
