-- ===== src/Validate/Nets.antt =====
-- src/design.rs: `Design::validate` on nets, modules and ports.
use circuitc.Prelude.{
  ℕ, ◌+◌, Bool, true, false, not, ◌&&◌, ◌||◌, List, [], ◌∷◌, ◌++◌, map, length, none, some, Text,
  codes, ltb, ◌==◌, if◌then◌else◌,
}
use circuitc.Prelude.Sets.{contains}
use circuitc.Design.{Net, ModuleInstance, ModulePort, Component, SimulationAnalysis, state_net}
use circuitc.Validate.Names.{is_empty, token_is_valid, semantic_path_is_valid, parent_path}
use circuitc.Validate.Report.{
  Diagnostic, report_if, when_some, any, each_after, is_repeated, at_index,
}

abbrev pub net_name : Net → Text
net_name net = net.name

abbrev pub module_path : ModuleInstance → Text
module_path m = m.path

unfoldable pub check_net : List Net → Net → List Diagnostic
check_net before net =
    let path = at_index (codes "design.nets") (length before) in
    report_if (not (token_is_valid net.name)) (codes "CC-NET-001") path
    ++ report_if (is_repeated net_name before net) (codes "CC-NET-002") path

unfoldable pub ground_count : List Net → ℕ
ground_count [] = 0
ground_count (net ∷ nets) = (if net.is_ground then 1 else 0) + ground_count nets

abbrev is_modelled : Component → Bool
is_modelled component = elim component.simulation [ none ↦ false | some _ ↦ true ]

abbrev pub has_simulation : List Component → List SimulationAnalysis → Bool
has_simulation components analyses = any is_modelled components || not (is_empty analyses)

unfoldable pub validate_nets : List Net → Bool → List Diagnostic
validate_nets nets simulated =
    each_after check_net [] nets
    ++ report_if (ltb 1 (ground_count nets)) (codes "CC-NET-003") (codes "design.nets")
    ++ report_if (simulated && not (ground_count nets == 1)) (codes "CC-SIM-001")
        (codes "design.nets")

unfoldable pub check_module : List ModuleInstance → ModuleInstance → List Diagnostic
check_module before m =
    let path = at_index (codes "design.modules") (length before) in
    report_if (not (semantic_path_is_valid m.path)) (codes "CC-MODULE-002") path
    ++ report_if (is_repeated module_path before m) (codes "CC-MODULE-003") path

unfoldable pub check_port : List Text → Text → List ModulePort → ModulePort → List Diagnostic
check_port net_names path before port =
    report_if (not (token_is_valid port.name)) (codes "CC-PORT-001") path
    ++ report_if (is_repeated (λ (p : ModulePort). p.name) before port) (codes "CC-PORT-002") path
    ++ when_some (state_net port.state)
        (λ net. report_if (not (contains net_names net)) (codes "CC-PORT-003") path)

unfoldable pub check_module_context :
    List Text → List Text → List ModuleInstance → ModuleInstance → List Diagnostic
check_module_context net_names module_paths before m =
    let path = at_index (codes "design.modules") (length before) in
    when_some (parent_path m.path)
      (λ parent. report_if (not (contains module_paths parent)) (codes "CC-MODULE-004") path)
    ++ each_after (check_port net_names path) [] m.ports

unfoldable pub validate_modules : List Text → List ModuleInstance → List Diagnostic
validate_modules net_names modules =
    report_if (is_empty modules) (codes "CC-MODULE-001") (codes "design.modules")
    ++ each_after check_module [] modules
    ++ each_after (check_module_context net_names (map module_path modules)) [] modules
