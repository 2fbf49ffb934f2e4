-- ===== src/Validate/Routable/Terminals.antt =====
-- src/design.rs: `Design::validate` on the terminals of a routing request, which are the pads of
-- its net, each once.
use circuitc.Prelude.{
  ◌≡◌, ◌≢◌, ◌⊎◌, inl, inr, refl, sym, ap, subst, ◌∙◌, List, [], ◌∷◌, Option, none, some, Text,
  text_eq, text_eq_iff, All, Bool-cases, if◌then◌else◌,
}
use circuitc.Prelude.Maps.Found.{Any, Any-left, Any-right, Any-both}
use circuitc.Prelude.Pairwise.{Pairwise, All-weaken, All-++, Pairwise-++}
use circuitc.Design.{PointNm, Component, Pad, PhysicalImplementation, transform}
use circuitc.Validate.Component.{component_path}
use circuitc.Validate.Routing.{
  Terminal, terminal_at, pad_terminals, component_terminals, all_terminals, is_on, net_for_pad,
}
use circuitc.Validate.Routable.Pads.{
  NetPad, pad_number, IsUnambiguous, net_for_pad-IsWired, net_for_pad-wired,
}

-- The terminal is that of the pad.
abbrev pub IsTerminal : Component → PhysicalImplementation → Pad → Terminal → Type 0
IsTerminal c physical pad t =
    (t.component ≡ c.path)
    × (t.pad ≡ pad.number)
    × (t.layer ≡ physical.placement.layer)
    × (transform physical.placement pad.offset ≡ some t.center)

-- Two terminals are of different components or of different pads.
abbrev pub Differ : Terminal → Terminal → Type 0
Differ a b = (a.component ≢ b.component) ⊎ (a.pad ≢ b.pad)

module _ (net : Text) (c : Component) (physical : PhysicalImplementation) where
  -- The terminals of one pad: one or none.
  abbrev of_pad : Pad → List Terminal
  of_pad pad =
      if is_on net (net_for_pad c pad.number)
      then terminal_at c physical pad (transform physical.placement pad.offset)
      else []

  -- A terminal of the pad, whose net it is.
  abbrev IsOf : Pad → Terminal → Type 0
  IsOf pad t = (net_for_pad c pad.number ≡ some net) × IsTerminal c physical pad t

  of_pad-cases :
      (pad : Pad) → (of_pad pad ≡ []) ⊎ ((t : Terminal) × (of_pad pad ≡ t ∷ []) × IsOf pad t)
  of_pad-cases pad = by_net (net_for_pad c pad.number) refl
    where
      by_center :
          (o : Option PointNm)
          → transform physical.placement pad.offset ≡ o
          → (terminal_at c physical pad o ≡ [])
            ⊎ ((t : Terminal) × (terminal_at c physical pad o ≡ t ∷ [])
                × IsTerminal c physical pad t)
      by_center none e = inl refl
      by_center (some center) e = inr (_, refl, (refl, refl, refl, e))

      by_net :
          (o : Option Text)
          → net_for_pad c pad.number ≡ o
          → (of_pad pad ≡ []) ⊎ ((t : Terminal) × (of_pad pad ≡ t ∷ []) × IsOf pad t)
      by_net none e = inl (rw e refl)
      by_net (some other) e = elim (Bool-cases (text_eq other net)) [
        | inr differs ↦ inl (rw (e, differs) refl)
        | inl same ↦ elim (by_center (transform physical.placement pad.offset) refl) [
          | inl nowhere ↦ inl (rw (e, same) nowhere)
          | inr (t, one, of) ↦
              inr (t, rw (e, same) one, (e ∙ ap some ((text_eq_iff other net).0 same), of))
        ]
      ]

  of_pad-some :
      (pad : Pad) (center : PointNm)
      → net_for_pad c pad.number ≡ some net
      → transform physical.placement pad.offset ≡ some center
      → Any (IsTerminal c physical pad) (of_pad pad)
  of_pad-some pad center e f = rw (e, (text_eq_iff net net).1 refl, f) (inl (refl, refl, refl, f))

  -- Every pad of the net has a terminal.
  pads-Any :
      (pad : Pad) (center : PointNm) (pads : List Pad)
      → net_for_pad c pad.number ≡ some net
      → transform physical.placement pad.offset ≡ some center
      → Any (λ p. p ≡ pad) pads
      → Any (IsTerminal c physical pad) (pad_terminals net c physical pads)
  pads-Any pad center [] e f found = elim found [ ]
  pads-Any pad center (p ∷ pads) e f (inl here) =
      Any-left _ (of_pad p) (pad_terminals net c physical pads)
        (rw here (of_pad-some pad center e f))
  pads-Any pad center (p ∷ pads) e f (inr later) =
      Any-right _ (of_pad p) (pad_terminals net c physical pads)
        (pads-Any pad center pads e f later)

  -- Every terminal is of one of the pads.
  abbrev IsOfPads : List Pad → Terminal → Type 0
  IsOfPads pads t = (pad : Pad) × Any (λ p. p ≡ pad) pads × IsOf pad t

  pads-All : (pads : List Pad) → All (IsOfPads pads) (pad_terminals net c physical pads)
  pads-All [] = tt
  pads-All (p ∷ pads) =
      All-++ (IsOfPads (p ∷ pads)) (of_pad p) (pad_terminals net c physical pads)
        (here (of_pad-cases p))
        (All-weaken _ (IsOfPads (p ∷ pads)) (pad_terminals net c physical pads)
          (λ t (pad, found, of). (pad, inr found, of)) (pads-All pads))
    where
      here :
          (of_pad p ≡ []) ⊎ ((t : Terminal) × (of_pad p ≡ t ∷ []) × IsOf p t)
          → All (IsOfPads (p ∷ pads)) (of_pad p)
      here (inl e) = rw e tt
      here (inr (t, e, of)) = rw e ((p, inl refl, of), tt)

  pads-Pairwise :
      (pads : List Pad)
      → Pairwise (λ a b. pad_number a ≢ pad_number b) pads
      → Pairwise Differ (pad_terminals net c physical pads)
  pads-Pairwise [] apart = tt
  pads-Pairwise (p ∷ pads) (apart, rest) = elim (of_pad-cases p) [
    | inl e ↦ rw e (pads-Pairwise pads rest)
    | inr (t, e, (_, (_, number, _, _))) ↦ rw e (
      All-weaken _ (Differ t) (pad_terminals net c physical pads)
          (λ u (pad, found, (_, (_, other, _, _))). inr (λ same.
            Any-both (λ q. pad_number p ≢ pad_number q) (λ q. q ≡ pad) pads
              (λ q differs is. differs (sym number ∙ same ∙ other ∙ ap pad_number (sym is))) apart
              found))
          (pads-All pads),
      pads-Pairwise pads rest,
    )
  ]

-- Every pad of the net whose center is computed has a terminal.
pub terminals-Any :
    (net : Text) (components : List Component) (p : NetPad components net) (center : PointNm)
    → IsUnambiguous p.component
    → transform p.physical.placement p.pad.offset ≡ some center
    → Any (IsTerminal p.component p.physical p.pad) (all_terminals net components)
terminals-Any net components p center sure computed = listed components p.of_design
  where
    own :
        Any
          (IsTerminal p.component p.physical p.pad)
          (component_terminals net p.component p.component.physical)
    own =
        subst
          (λ o.
            Any (IsTerminal p.component p.physical p.pad) (component_terminals net p.component o))
          (sym p.placed)
          (pads-Any net p.component p.physical p.pad center p.physical.footprint.pads
            (net_for_pad-wired net p.component p.pad.number p.physical sure p.placed p.wired)
            computed p.of_footprint)

    listed :
        (cs : List Component)
        → Any (λ c. c ≡ p.component) cs
        → Any (IsTerminal p.component p.physical p.pad) (all_terminals net cs)
    listed [] found = elim found [ ]
    listed (c ∷ cs) (inl here) =
        Any-left _ (component_terminals net c c.physical) (all_terminals net cs) (rw here own)
    listed (c ∷ cs) (inr later) =
        Any-right _ (component_terminals net c c.physical) (all_terminals net cs) (listed cs later)

-- The terminal is that of a pad of the net.
abbrev pub IsOfNet : Text → List Component → Terminal → Type 0
IsOfNet net components t = (p : NetPad components net) × IsTerminal p.component p.physical p.pad t

module _ (net : Text) where
  component-All :
      (c : Component) (cs : List Component) (o : Option PhysicalImplementation)
      → c.physical ≡ o
      → All (IsOfNet net (c ∷ cs)) (component_terminals net c o)
  component-All c cs none e = tt
  component-All c cs (some physical) e =
      All-weaken _ (IsOfNet net (c ∷ cs)) (pad_terminals net c physical physical.footprint.pads)
        (λ t (pad, found, (h, of)). (
          record {
            component = c;
            physical = physical;
            pad = pad;
            of_design = inl refl;
            placed = e;
            of_footprint = found;
            wired = net_for_pad-IsWired net c pad.number physical e h;
          },
          of,
        ))
        (pads-All net c physical physical.footprint.pads)

  -- Every terminal is that of a pad of the net.
  pub terminals-All :
      (components : List Component) → All (IsOfNet net components) (all_terminals net components)
  terminals-All [] = tt
  terminals-All (c ∷ cs) =
      All-++ (IsOfNet net (c ∷ cs)) (component_terminals net c c.physical) (all_terminals net cs)
        (component-All c cs c.physical refl)
        (All-weaken _ (IsOfNet net (c ∷ cs)) (all_terminals net cs)
          (λ t (p, of). (
            record {
              component = p.component;
              physical = p.physical;
              pad = p.pad;
              of_design = inr p.of_design;
              placed = p.placed;
              of_footprint = p.of_footprint;
              wired = p.wired;
            },
            of,
          ))
          (terminals-All cs))

  component-Pairwise :
      (c : Component) (o : Option PhysicalImplementation)
      → c.physical ≡ o
      → IsUnambiguous c
      → Pairwise Differ (component_terminals net c o)
  component-Pairwise c none e sure = tt
  component-Pairwise c (some physical) e (_, apart) =
      pads-Pairwise net c physical physical.footprint.pads (apart physical e).1

  component-path :
      (c : Component) (o : Option PhysicalImplementation)
      → All (λ t. t.component ≡ c.path) (component_terminals net c o)
  component-path c none = tt
  component-path c (some physical) =
      All-weaken _ _ (pad_terminals net c physical physical.footprint.pads)
        (λ t (pad, found, (_, (path, _, _, _))). path)
        (pads-All net c physical physical.footprint.pads)

  -- No pad has two terminals.
  pub terminals-Pairwise :
      (components : List Component)
      → Pairwise (λ a b. component_path a ≢ component_path b) components
      → All IsUnambiguous components
      → Pairwise Differ (all_terminals net components)
  terminals-Pairwise [] apart sure = tt
  terminals-Pairwise (c ∷ cs) (apart, rest) (own, sure) =
      Pairwise-++ Differ (component_terminals net c c.physical) (all_terminals net cs)
        (component-Pairwise c c.physical refl own) (terminals-Pairwise cs rest sure)
        (All-weaken _ _ (component_terminals net c c.physical)
          (λ t path.
            All-weaken _ (Differ t) (all_terminals net cs)
              (λ u (p, (other, _, _, _)). inl (λ same.
                Any-both (λ b. component_path c ≢ component_path b) (λ b. b ≡ p.component) cs
                  (λ b differs is. differs (sym path ∙ same ∙ other ∙ ap component_path (sym is)))
                  apart p.of_design))
              (terminals-All cs))
          (component-path c c.physical))
