-- ===== src/Validate/Routable/Steps.antt =====
-- src/design.rs: `Design::validate` on the layer and the grid of a terminal.
use circuitc.Prelude.{
  ℕ, ◌≤◌, ◌*◌, ◌/◌, ◌%◌, ◌≡◌, ◌⊎◌, inl, inr, refl, arith, ◌+◌, pos, negsuc, pos_part, neg_part,
  nat_abs, ◌+ℤ◌, ◌-ℤ◌, ◌≤ℤ◌, +ℤ_parts, -ℤ_parts, eq_of_parts, Bool, true, false, not, ◌&&◌, Text,
  ==_iff, ℤ,
}
use circuitc.Design.{PointNm, RectNm, RoutingRequest, CopperLayer, front, back}
use circuitc.Design.Compare.{layer_rank}
use circuitc.Validate.Envelope.{is_positive}
use circuitc.Validate.Routing.{Terminal, is_multiple, is_on_grid, check_terminal}
use circuitc.Validate.Clean.{IsClean, split, report_if-IsClean, report_if-not-IsClean}

-- From one coordinate to another in whole steps, up or down.
abbrev pub IsSteps : ℤ → ℤ → ℤ → Type 0
IsSteps from step to =
    (n : ℕ) × ((to ≡ from +ℤ pos (n * pos_part step)) ⊎ (from ≡ to +ℤ pos (n * pos_part step)))

layer_rank-inj : (a b : CopperLayer) → layer_rank a ≡ layer_rank b → a ≡ b
layer_rank-inj front front h = refl
layer_rank-inj front back h = absurd (omega arith)
layer_rank-inj back front h = absurd (omega arith)
layer_rank-inj back back h = refl

pub positive-pos : (value : ℤ) → is_positive value ≡ true → pos 1 ≤ℤ value
positive-pos value h = ground arith

quotient_exact : (n s : ℕ) → 1 ≤ s → n % s ≡ 0 → n ≡ n / s * s
quotient_exact n s positive h = omega arith

-- A distance that the grid step divides is whole steps.
multiple-IsSteps :
    (from step to : ℤ) → pos 1 ≤ℤ step → is_multiple (to -ℤ from) step ≡ true → IsSteps from step to
multiple-IsSteps from step to positive h =
    let distance = nat_abs (to -ℤ from) in
    (
      distance / pos_part step,
      stepped (to -ℤ from) (distance / pos_part step * pos_part step) (-ℤ_parts to from)
          (quotient_exact distance (pos_part step) (omega arith) ((==_iff _ 0).0 h)),
    )
  where
    stepped :
        (z : ℤ) (m : ℕ)
        → pos_part z + neg_part to + pos_part from ≡ neg_part z + pos_part to + neg_part from
        → nat_abs z ≡ m
        → (to ≡ from +ℤ pos m) ⊎ (from ≡ to +ℤ pos m)
    stepped (pos k) m parts e =
        inl (eq_of_parts _ _ (omega (arith, parts, e, +ℤ_parts from (pos m))))
    stepped (negsuc k) m parts e =
        inr (eq_of_parts _ _ (omega (arith, parts, e, +ℤ_parts to (pos m))))

on_grid-IsSteps :
    (origin center : PointNm) (step : ℤ)
    → pos 1 ≤ℤ step
    → is_on_grid origin center step ≡ true
    → IsSteps origin.x step center.x × IsSteps origin.y step center.y
on_grid-IsSteps origin center step positive h =
    let (x, y) = both h in
    (
      multiple-IsSteps origin.x step center.x positive x,
      multiple-IsSteps origin.y step center.y positive y,
    )
  where
    both :
        is_on_grid origin center step ≡ true
        → (is_multiple (center.x -ℤ origin.x) step ≡ true)
          × (is_multiple (center.y -ℤ origin.y) step ≡ true)
    both h = ground arith

-- The terminal is on the request's layer and grid.
abbrev pub IsServed : RectNm → RoutingRequest → Terminal → Type 0
IsServed outline request t =
    (t.layer ≡ request.layer)
    × IsSteps outline.origin.x request.grid_step_nm t.center.x
    × IsSteps outline.origin.y request.grid_step_nm t.center.y

pub check_terminal-IsServed :
    (outline : RectNm) (request : RoutingRequest) (path : Text) (t : Terminal)
    → is_positive request.grid_step_nm ≡ true
    → IsClean (check_terminal outline.origin request path t)
    → IsServed outline request t
unfolding check_terminal
check_terminal-IsServed outline request path t positive h =
    let (layer, grid) = split h in
    let (x, y) =
      on_grid-IsSteps outline.origin t.center request.grid_step_nm
        (positive-pos request.grid_step_nm positive)
        (on_grid (is_positive request.grid_step_nm) _ positive (report_if-IsClean _ _ _ grid)) in
    (layer_rank-inj _ _ ((==_iff _ _).0 (report_if-not-IsClean _ _ _ layer)), x, y)
  where
    on_grid : (a b : Bool) → a ≡ true → (a && not b) ≡ false → b ≡ true
    on_grid a b p e = ground arith
