-- ===== src/Validate/Unique.antt =====
-- What names a thing in a valid design names one thing.
use circuitc.Prelude.{◌≡◌, ◌≢◌, false, List, [], Text}
use circuitc.Prelude.Pairwise.{Pairwise}
use circuitc.Design.{Design, RectNm, Net, ModuleInstance, Component, RouteSegment}
use circuitc.Validate.Nets.{
  net_name, module_path, check_net, validate_nets, check_module, validate_modules,
}
use circuitc.Validate.Routing.{route_path, check_route, validate_routes}
use circuitc.Validate.Component.{
  component_path, component_reference, check_identity, validate_component,
}
use circuitc.Validate.Whole.{validate, net_names}
use circuitc.Validate.Report.{is_repeated}
use circuitc.Validate.Clean.{IsClean, split, report_if-IsClean, each_after-differ}
use circuitc.Validate.Passed.{validate-Passed, validate_component-Passed}

-- No two elements have the same key.
abbrev pub IsDistinct : {A : Type 0} → (A → Text) → List A → Type 0
IsDistinct key xs = Pairwise (λ a b. key a ≢ key b) xs

clean_net :
    (before : List Net) (net : Net)
    → IsClean (check_net before net)
    → is_repeated net_name before net ≡ false
unfolding check_net
clean_net before net h = let (_, repeated) = split h in report_if-IsClean _ _ _ repeated

clean_module :
    (before : List ModuleInstance) (m : ModuleInstance)
    → IsClean (check_module before m)
    → is_repeated module_path before m ≡ false
unfolding check_module
clean_module before m h = let (_, repeated) = split h in report_if-IsClean _ _ _ repeated

clean_route :
    (outline : RectNm) (names : List Text) (before : List RouteSegment) (route : RouteSegment)
    → IsClean (check_route outline names before route)
    → is_repeated route_path before route ≡ false
unfolding check_route
clean_route outline names before route h =
    let (h1, _) = split h in
    let (h2, _) = split h1 in
    let (h3, _) = split h2 in
    let (h4, _) = split h3 in
    let (h5, _) = split h4 in
    let (h6, _) = split h5 in
    let (h7, _) = split h6 in
    let (h8, _) = split h7 in let (_, repeated) = split h8 in report_if-IsClean _ _ _ repeated

clean_identity :
    (outline : RectNm) (names modules : List Text) (before : List Component) (c : Component)
    → IsClean (validate_component outline names modules before c)
    → (is_repeated component_path before c ≡ false)
      × (is_repeated component_reference before c ≡ false)
unfolding check_identity
clean_identity outline names modules before c h =
    let passed = validate_component-Passed outline names modules before c h in
    let (i1, _) = split passed.identity in
    let (i2, reference) = split i1 in
    let (i3, _) = split i2 in
    let (i4, _) = split i3 in
    let (_, path) = split i4 in (report_if-IsClean _ _ _ path, report_if-IsClean _ _ _ reference)

-- In a valid design no two nets have one name, no two modules one path, no two components one path
-- or one reference, and no two routes one path.
pub validate-IsDistinct :
    (d : Design)
    → validate d ≡ []
    → IsDistinct net_name d.nets
      × IsDistinct module_path d.modules
      × IsDistinct component_path d.components
      × IsDistinct component_reference d.components
      × IsDistinct route_path d.board.routes
unfolding validate_nets validate_modules validate_routes
validate-IsDistinct d h =
    let passed = validate-Passed d h in
    let (n, _) = split passed.nets in
    let (nets, _) = split n in
    let (m, _) = split passed.modules in
    let (_, modules) = split m in
    (
      each_after-differ check_net net_name clean_net [] d.nets nets,
      each_after-differ check_module module_path clean_module [] d.modules modules,
      each_after-differ _ component_path (λ before c clean. (clean_identity _ _ _ before c clean).0)
          [] d.components passed.components,
      each_after-differ _ component_reference
          (λ before c clean. (clean_identity _ _ _ before c clean).1) [] d.components
          passed.components,
      each_after-differ _ route_path (clean_route d.board.outline (net_names d)) [] d.board.routes
          passed.routes,
    )
