-- ===== src/Validate/Routable.antt =====
-- src/design.rs: `Design::validate` on routing requests. The request of a valid design is one that
-- a planar router can take.
mod Pads
mod Steps
mod Terminals
use circuitc.Prelude.{
  ℕ, ◌≤◌, ◌≡◌, ◌⊎◌, inl, inr, sym, ◌∙◌, ◌∷◌, Bool-cases, text_eq, text_eq_iff, arith, pos, some,
  ◌≤ℤ◌, true, false, List, [], map, length, Text, All, ==_iff, ltb, ℤ,
}
use circuitc.Prelude.Pairwise.{Pairwise, All-weaken}
use circuitc.Prelude.Sets.{contains}
use circuitc.Design.{Design, PointNm, RectNm, Net, Component, transform, RoutingRequest}
use circuitc.Validate.Envelope.{is_positive}
use circuitc.Validate.Routing.{
  Terminal, terminals, all_terminals, check_dimension, check_request, validate_requests, route_path,
}
use circuitc.Prelude.Maps.Found.{Any, Any-map, Any-All, Any-both}
use circuitc.Prelude.Sorting.Sorted.{sort_by-Reordering, length-Reordering, All-Reordering}
use circuitc.Validate.Nets.{net_name}
use circuitc.Validate.Component.{component_path}
use circuitc.Validate.Unique.{IsDistinct, validate-IsDistinct}
use circuitc.Validate.Bounded.{IsInBounds, validate-IsInBounds}
use circuitc.Validate.Routable.Steps.{IsSteps, positive-pos, IsServed, check_terminal-IsServed}
use circuitc.Validate.Routable.Pads.{NetPad, IsUnambiguous, component-IsUnambiguous}
use circuitc.Validate.Routable.Terminals.{
  IsTerminal, Differ, IsOfNet, terminals-Any, terminals-All, terminals-Pairwise,
}
use circuitc.Validate.Whole.{validate}
use circuitc.Validate.Passed.{validate-Passed}
use circuitc.Validate.Clean.{
  IsClean, split, report_if-IsClean, report_if-not-IsClean, each-IsClean, each_after-All,
}

-- The pad is on the request's layer, and its center whole grid steps from the corner of the board,
-- across and up.
pub record IsReachable {components : List Component} (outline : RectNm) (request : RoutingRequest)
    (p : NetPad components request.net) : Type 0 where
  pub on_layer : p.physical.placement.layer ≡ request.layer
  pub center : PointNm
  pub computed : transform p.physical.placement p.pad.offset ≡ some center
  pub across : IsSteps outline.origin.x request.grid_step_nm center.x
  pub up : IsSteps outline.origin.y request.grid_step_nm center.y

-- Two pads are one: of one component, with one number.
abbrev IsSame :
    {components : List Component} {net : Text}
    → NetPad components net
    → NetPad components net
    → Type 0
IsSame p q = (p.component.path ≡ q.component.path) × (p.pad.number ≡ q.pad.number)

-- The net has two pads, and no more.
pub record IsPair (components : List Component) (net : Text) : Type 0 where
  pub first : NetPad components net
  pub second : NetPad components net
  pub apart : ¬ IsSame first second
  pub no_more : (p : NetPad components net) → IsSame p first ⊎ IsSame p second

-- A declared net with two pads to connect, and dimensions that are positive.
pub record IsRoutable (outline : RectNm) (nets : List Net) (components : List Component)
    (request : RoutingRequest) : Type 0 where
  pub declared : Any (λ net. net.name ≡ request.net) nets
  pub width : pos 1 ≤ℤ request.width_nm
  pub clearance : pos 1 ≤ℤ request.clearance_nm
  pub grid_step : pos 1 ≤ℤ request.grid_step_nm
  pub pair : IsPair components request.net
  pub reachable : (p : NetPad components request.net) → IsReachable outline request p

check_dimension-positive :
    (path : Text) (value : ℤ) (field positive_code envelope_code : Text)
    → IsClean (check_dimension path value field positive_code envelope_code)
    → is_positive value ≡ true
unfolding check_dimension
check_dimension-positive path value field positive_code envelope_code h =
    let (positive, _) = split h in report_if-not-IsClean _ _ _ positive

contains-Any : (names : List Text) (x : Text) → contains names x ≡ true → Any (λ y. y ≡ x) names
contains-Any [] x h = absurd cc
contains-Any (y ∷ ys) x h = elim (Bool-cases (text_eq y x)) [
  | inl same ↦ inl ((text_eq_iff y x).0 same)
  | inr other ↦ inr (contains-Any ys x (rw other at h))
]

module _ (outline : RectNm) (nets : List Net) (components : List Component)
    (distinct : IsDistinct component_path components) (sure : All IsUnambiguous components)
    (centered : (net : Text) (p : NetPad components net)
      → (center : PointNm) × (transform p.physical.placement p.pad.offset ≡ some center)) where
  listed :
      (net : Text) (p : NetPad components net)
      → Any (IsTerminal p.component p.physical p.pad) (all_terminals net components)
  listed net p =
      let (center, computed) = centered net p in
      terminals-Any net components p center
        (Any-All IsUnambiguous p.component components sure p.of_design) computed

  -- The pads of two terminals are a pair.
  two-IsPair :
      (net : Text) (ts : List Terminal)
      → length ts ≡ 2
      → All (IsOfNet net components) ts
      → Pairwise Differ ts
      → ((p : NetPad components net) → Any (IsTerminal p.component p.physical p.pad) ts)
      → IsPair components net
  two-IsPair net [] two of differ found = absurd (omega (arith, two))
  two-IsPair net (t ∷ []) two of differ found = absurd (omega (arith, two))
  two-IsPair net (t ∷ u ∷ v ∷ ts) two of differ found = absurd (omega (arith, two))
  two-IsPair net (t ∷ u ∷ []) two
        ((p, (p_path, p_number, _, _)), ((q, (q_path, q_number, _, _)), _)) ((differ, _), _) found =
      record {
        first = p;
        second = q;
        apart = λ (path, number). elim differ [
          | inl d ↦ d (p_path ∙ path ∙ sym q_path)
          | inr d ↦ d (p_number ∙ number ∙ sym q_number)
        ];
        no_more = λ r. elim (found r) [
          | inl (path, number, _, _) ↦ inl (sym path ∙ p_path, sym number ∙ p_number)
          | inr later ↦ elim later [
            | inl (path, number, _, _) ↦ inr (sym path ∙ q_path, sym number ∙ q_number)
            | inr h ↦ absurd h
          ]
        ];
      }

  served-IsReachable :
      (request : RoutingRequest)
      → All (IsServed outline request) (all_terminals request.net components)
      → (p : NetPad components request.net) → IsReachable outline request p
  served-IsReachable request served p =
      Any-both (IsServed outline request) (IsTerminal p.component p.physical p.pad)
        (all_terminals request.net components)
        (λ t (layer, across, up) (_, _, own, at). record {
          on_layer = sym own ∙ layer;
          center = t.center;
          computed = at;
          across = across;
          up = up;
        })
        served (listed request.net p)

  check_request-IsRoutable :
      (paths : List Text) (before : List RoutingRequest) (request : RoutingRequest)
      → IsClean (check_request outline (map net_name nets) components paths before request)
      → IsRoutable outline nets components request
  unfolding check_request terminals
  check_request-IsRoutable paths before request h =
      let (h1, ends) = split h in
      let (h2, two) = split h1 in
      let (h3, grid) = split h2 in
      let (h4, clearance) = split h3 in
      let (h5, width) = split h4 in
      let (_, declared) = split h5 in
      let step = check_dimension-positive _ _ _ _ _ grid in
      let order = sort_by-Reordering _ (all_terminals request.net components) in
      record {
        declared =
            Any-map _ net_name nets (contains-Any _ _ (report_if-not-IsClean _ _ _ declared));
        width = positive-pos _ (check_dimension-positive _ _ _ _ _ width);
        clearance = positive-pos _ (check_dimension-positive _ _ _ _ _ clearance);
        grid_step = positive-pos _ step;
        pair =
            two-IsPair request.net (all_terminals request.net components)
              (length-Reordering order ∙ (==_iff _ 2).0 (report_if-not-IsClean _ _ _ two))
              (terminals-All request.net components)
              (terminals-Pairwise request.net components distinct sure) (listed request.net);
        reachable = served-IsReachable request (
            All-Reordering (IsServed outline request) order (
              All-weaken _ (IsServed outline request) (terminals request.net components)
                (λ t clean. check_terminal-IsServed outline request _ t step clean)
                (each-IsClean _ (terminals request.net components) ends)));
      }

-- The transform of no pad overflows.
pad-centered :
    (d : Design)
    → validate d ≡ []
    → (net : Text) (p : NetPad d.components net)
    → (center : PointNm) × (transform p.physical.placement p.pad.offset ≡ some center)
pad-centered d h net p =
    let (_, bounds) = validate-IsInBounds d h in
    let (_, mounted) =
      Any-All (IsInBounds d.board.outline) p.component d.components bounds p.of_design in
    let (_, _, pads) = mounted p.physical p.placed in
    let (center, computed, _, _) = Any-All _ p.pad p.physical.footprint.pads pads p.of_footprint in
    (center, computed)

-- A valid design has at most one routing request; its net is declared, and its width, clearance
-- and grid step are positive. Two pads, and no more, are bound to pins that are connected to the
-- net; both are on the request's layer, and their centers are, across and up, whole grid steps
-- from the corner of the board.
pub validate-IsRoutable :
    (d : Design)
    → validate d ≡ []
    → (length d.board.routing_requests ≤ 1)
      × All (IsRoutable d.board.outline d.nets d.components) d.board.routing_requests
unfolding validate_requests
validate-IsRoutable d h =
    let (one, requests) = split (validate-Passed d h).requests in
    let (_, _, distinct, _, _) = validate-IsDistinct d h in
    let sure =
      each_after-All _ IsUnambiguous [] d.components (component-IsUnambiguous d.board.outline _ _)
        (validate-Passed d h).components in
    (
      at_most_one _ (report_if-IsClean _ _ _ one),
      each_after-All _ (IsRoutable d.board.outline d.nets d.components) [] d.board.routing_requests
          (check_request-IsRoutable d.board.outline d.nets d.components distinct sure
            (pad-centered d h) (map route_path d.board.routes))
          requests,
    )
  where
    at_most_one : (n : ℕ) → ltb 1 n ≡ false → n ≤ 1
    at_most_one n h = ground arith
