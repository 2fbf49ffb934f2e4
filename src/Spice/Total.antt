-- ===== src/Spice/Total.antt =====
-- A design whose simulated components are wired has a netlist: no index of the source panics.
use circuitc.Prelude.{
  ◌≡◌, subst, inl, inr, refl, sym, ap, ◌∙◌, true, false, List, [], ◌∷◌, map, Option, some, Text,
  All,
}
use circuitc.Prelude.Maybe.{◌>>=◌}
use circuitc.Design.{Component, Design, SimulationModel, SimulationAnalysis, model_pins}
use circuitc.Prelude.Sorting.{compare_text}
use circuitc.Spice.{
  SpiceNameMap, contains, net_for_pin, is_simulated, emitted_net_names, simulated_components,
  lower_names,
}
use circuitc.Spice.Netlist.{
  LoweredSpice, lookup, component_line, component_lines, node_pairs, device_pairs,
  lower_netlist_with_analysis,
}
use circuitc.Prelude.Sorting.Sorted.{All-sort_by}
use circuitc.Spice.Found.{lookup-found, All-filter, names_present}
use circuitc.Spice.Emitted.{
  IsDeclared, IsWired, IsReady, Emits, All-Emits, emitted_has, node_keys, device_keys,
}

abbrev IsSome : {A : Type 0} → Option A → Type 0
IsSome {A = A} o = (a : A) × (o ≡ some a)

bound :
    {A B : Type 0} (o : Option A) (f : A → Option B) (a : A)
    → o ≡ some a
    → IsSome (f a)
    → IsSome (o >>= f)
bound o f a e h = subst (λ t. IsSome (t >>= f)) (sym e) h

line_found :
    (names : SpiceNameMap) (analysis : Option SimulationAnalysis) (c : Component)
    (model : SimulationModel) (p n d x y : Text)
    → c.simulation ≡ some model
    → net_for_pin c (model_pins model).0 ≡ some p
    → net_for_pin c (model_pins model).1 ≡ some n
    → lookup (device_pairs names) c.path ≡ some d
    → lookup (node_pairs names) p ≡ some x
    → lookup (node_pairs names) n ≡ some y
    → IsSome (component_line names analysis c)
unfolding component_line
line_found names analysis c model p n d x y em ep en ed ex ey = bound c.simulation _ model em (
    bound (net_for_pin c (model_pins model).0) _ p ep (
      bound (net_for_pin c (model_pins model).1) _ n en (
        bound (lookup (device_pairs names) c.path) _ d ed (
          bound (lookup (node_pairs names) p) _ x ex
            (bound (lookup (node_pairs names) n) _ y ey (_, refl))))))

node_found :
    (design : Design) (name : Text)
    → IsDeclared design.nets name
    → contains (emitted_net_names design.components) name ≡ true
    → IsSome (lookup (node_pairs (lower_names design)) name)
node_found design name declared emitted =
    lookup-found (node_pairs (lower_names design)) name (
      ap (λ keys. contains keys name) (node_keys design) ∙ emitted_has design name declared emitted)

abbrev IsListed : Design → Component → Type 0
IsListed design c = contains (map (λ c. c.path) (simulated_components design)) c.path ≡ true

wired_line :
    (design : Design) (analysis : Option SimulationAnalysis) (c : Component)
    (model : SimulationModel)
    → IsWired design.nets c model
    → Emits (emitted_net_names design.components) c
    → IsListed design c
    → IsSome (component_line (lower_names design) analysis c)
wired_line design analysis c model w emits listed =
    let (emitted, emitted_too) =
      emits model w.positive w.negative w.modelled w.positive_net w.negative_net in
    let (device, found_device) =
      lookup-found (device_pairs (lower_names design)) c.path
        (ap (λ keys. contains keys c.path) (device_keys design) ∙ listed) in
    let (x, found_x) = node_found design w.positive w.positive_declared emitted in
    let (y, found_y) = node_found design w.negative w.negative_declared emitted_too in
    line_found (lower_names design) analysis c model w.positive w.negative device x y w.modelled
      w.positive_net w.negative_net found_device found_x found_y

abbrev IsLowerable : Design → Component → Type 0
IsLowerable design c =
    (IsReady design.nets c × Emits (emitted_net_names design.components) c)
    × (is_simulated c ≡ true)

ready_line :
    (design : Design) (analysis : Option SimulationAnalysis) (c : Component)
    → IsLowerable design c
    → IsListed design c
    → IsSome (component_line (lower_names design) analysis c)
ready_line design analysis c ((inl unmodelled, _), simulated) listed =
    absurd (false_true (rw unmodelled at simulated))
  where
    false_true : false ≡ true → ⊥
    false_true h = cc
ready_line design analysis c ((inr (model, w), emits), simulated) listed =
    wired_line design analysis c model w emits listed

every_line_found :
    (design : Design) (analysis : Option SimulationAnalysis) (components : List Component)
    → All (IsLowerable design) components
    → All (IsListed design) components
    → IsSome (component_lines (lower_names design) analysis components)
unfolding component_lines
every_line_found design analysis [] h l = (_, refl)
every_line_found design analysis (c ∷ cs) (p, h) (q, l) =
    let (line, found) = ready_line design analysis c p q in
    let (lines, found_rest) = every_line_found design analysis cs h l in
    bound (component_line (lower_names design) analysis c) _ line found
      (bound (component_lines (lower_names design) analysis cs) _ lines found_rest (_, refl))

All-both :
    {A : Type 0} (P Q : A → Type 0) (xs : List A) → All P xs → All Q xs → All (λ x. P x × Q x) xs
All-both P Q [] h k = tt
All-both P Q (x ∷ xs) (p, h) (q, k) = ((p, q), All-both P Q xs h k)

lowerable :
    (design : Design)
    → All (IsReady design.nets) design.components
    → All (IsLowerable design) (simulated_components design)
unfolding simulated_components
lowerable design ready =
    All-sort_by (λ left right. compare_text left.path right.path) (IsLowerable design) _
      (All-filter (λ c. IsReady design.nets c × Emits (emitted_net_names design.components) c)
        is_simulated design.components
        (All-both (IsReady design.nets) (Emits (emitted_net_names design.components))
          design.components ready (All-Emits design.components)))

-- Where every component with a model has both of its pins on declared nets, there is a netlist, for
-- any analysis: no lookup of a pin, a node or a device fails.
pub lower_netlist_total :
    (design : Design) (analysis : Option SimulationAnalysis)
    → All (IsReady design.nets) design.components
    → (lowered : LoweredSpice) × (lower_netlist_with_analysis design analysis ≡ some lowered)
      × (lowered.name_map ≡ lower_names design)
unfolding lower_netlist_with_analysis
lower_netlist_total design analysis ready =
    let (lines, found) =
      every_line_found design analysis (simulated_components design) (lowerable design ready)
        (names_present (λ c. c.path) (simulated_components design)) in
    rw found (_, refl, refl)
