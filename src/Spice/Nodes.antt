-- ===== src/Spice/Nodes.antt =====
-- The nodes of `lower_names`: SPICE does not tell upper from lower case, so their keys must
-- differ.
use circuitc.Prelude.{
  ◌≡◌, ◌≢◌, ◌⊎◌, inl, inr, refl, sym, ap, ◌∙◌, arith, Bool, true, false, not, ◌&&◌, List, [], ◌∷◌,
  Option, none, some, Text, codes, All, text_eq, if◌then◌else◌, Bool-cases,
}
use circuitc.Design.{Design, Net}
use circuitc.Spice.{
  SpiceNetNameMapping, contains, spice_case_key, unique_mangled, name_all, name_net, used_nodes,
  can_preserve, case_count, signal_names, net_nodes, emitted_nets, spice_node_is_reserved,
  lower_names,
}
use circuitc.Spice.Fresh.{unique_mangled-fresh}
use circuitc.Prelude.Pairwise.{Pairwise, Pairwise-map, Pairwise-weaken}
use circuitc.Spice.Unique.{
  Keeps, IsUsed, Apart, All-IsUsed-Grows, contains-here, contains-there, name_all-Pairwise,
  Keeps-Grows, differ_of_used,
}
use circuitc.Spice.Count.{KeysDiffer, KeysDiffer-Pairwise}

abbrev NodesApart : Text → Text → Type 0
NodesApart x y = ((x ≡ codes "0") × (y ≡ codes "0")) ⊎ (spice_case_key x ≢ spice_case_key y)

abbrev kept_node : List Text → Net → Option Text
kept_node names net =
    if net.is_ground
    then some (codes "0")
    else if can_preserve names net
    then some net.name
    else none

name_net-Keeps :
    (names : List Text) (net : Net) (used : List Text)
    → Keeps (kept_node names) NodesApart (λ x y h. inr h) used net (name_net names net used)
unfolding name_net unique_mangled
name_net-Keeps names net used = elim (Bool-cases net.is_ground) [
  | inl ground_net ↦ rw ground_net (inl (refl, refl))
  | inr signal ↦ elim (Bool-cases (can_preserve names net)) [
    | inl kept ↦ rw (signal, kept) (inl (refl, refl))
    | inr mangled ↦
        rw (signal, mangled) (inr (refl, unique_mangled-fresh (codes "CCN") net.name used, refl))
  ]
]

used_nodes-Grows :
    (names : List Text) (net : Net) (nets : List Net) (used : List Text) (x : Text)
    → contains (used_nodes names nets used) x ≡ true
    → contains (used_nodes names (net ∷ nets) used) x ≡ true
used_nodes-Grows names net nets used x h =
    elim (Bool-cases (not net.is_ground && can_preserve names net)) [
      | inl kept ↦
          rw kept (contains-there x (spice_case_key net.name) (used_nodes names nets used) h)
      | inr mangled ↦ rw mangled h
    ]

used_nodes-keeps :
    (names : List Text) (nets : List Net) (used : List Text) (x : Text)
    → contains used x ≡ true
    → contains (used_nodes names nets used) x ≡ true
used_nodes-keeps names [] used x h = h
used_nodes-keeps names (net ∷ nets) used x h =
    used_nodes-Grows names net nets used x (used_nodes-keeps names nets used x h)

zero_key : spice_case_key (codes "0") ≡ codes "0"
unfolding spice_case_key
zero_key = refl

used_nodes-head :
    (names : List Text) (net : Net) (nets : List Net)
    → IsUsed
        (kept_node names)
        NodesApart
        (λ x y h. inr h)
        (used_nodes names (net ∷ nets) (codes "0" ∷ []))
        (kept_node names net)
used_nodes-head names net nets = elim (Bool-cases net.is_ground) [
  | inl ground_net ↦
      rw (ground_net, zero_key)
        (used_nodes-keeps names nets (codes "0" ∷ []) (codes "0") (contains-here (codes "0") []))
  | inr signal ↦ elim (Bool-cases (can_preserve names net)) [
    | inl kept ↦
        rw (signal, kept)
          (contains-here (spice_case_key net.name) (used_nodes names nets (codes "0" ∷ [])))
    | inr mangled ↦ rw (signal, mangled) tt
  ]
]

used_nodes-IsUsed :
    (names : List Text) (nets : List Net)
    → All
        (λ net.
          IsUsed
            (kept_node names)
            NodesApart
            (λ x y h. inr h)
            (used_nodes names nets (codes "0" ∷ []))
            (kept_node names net))
        nets
used_nodes-IsUsed names [] = tt
used_nodes-IsUsed names (net ∷ nets) = (
  used_nodes-head names net nets,
  All-IsUsed-Grows (kept_node names) NodesApart (λ x y h. inr h)
      (used_nodes names nets (codes "0" ∷ [])) (used_nodes names (net ∷ nets) (codes "0" ∷ [])) nets
      (used_nodes-Grows names net nets (codes "0" ∷ [])) (used_nodes-IsUsed names nets),
)

abbrev is_signal : Net → Bool
is_signal net = not net.is_ground

signal_names-takes :
    (net : Net) (nets : List Net)
    → is_signal net ≡ true
    → signal_names (net ∷ nets) ≡ net.name ∷ signal_names nets
signal_names-takes net nets h = rw h refl

signal_names-skips :
    (net : Net) (nets : List Net)
    → is_signal net ≡ false
    → signal_names (net ∷ nets) ≡ signal_names nets
signal_names-skips net nets h = rw h refl

abbrev NamesDiffer : List Text → Net → Net → Type 0
NamesDiffer =
    KeysDiffer is_signal (λ net. net.name) signal_names signal_names-takes signal_names-skips

counted_once :
    (names : List Text) (net : Net)
    → can_preserve names net ≡ true
    → case_count names (spice_case_key net.name) ≡ 1
counted_once names net kept = ground arith

-- Only the name "0" has its key, and that name is reserved.
zero_from_key : (name : Text) → spice_case_key name ≡ codes "0" → name ≡ codes "0"
unfolding spice_case_key
zero_from_key [] h = absurd cc
zero_from_key (c ∷ []) h = ground arith
zero_from_key (c ∷ d ∷ cs) h = absurd cc

preserved_not_zero :
    (names : List Text) (net : Net)
    → can_preserve names net ≡ true
    → spice_case_key (codes "0") ≢ spice_case_key net.name
unfolding spice_node_is_reserved text_eq
preserved_not_zero names net kept e = clash (rw zero_name at kept)
  where
    zero_name : net.name ≡ codes "0"
    zero_name = zero_from_key net.name (sym e ∙ zero_key)

    clash : false ≡ true → ⊥
    clash h = cc

-- A net is the ground, keeps its name, or has it mangled.
abbrev NodeCase : List Text → Net → Type 0
NodeCase names net =
    (kept_node names net ≡ some (codes "0"))
    ⊎ (((net.is_ground ≡ false)
          × (can_preserve names net ≡ true)
          × (kept_node names net ≡ some net.name))
        ⊎ (kept_node names net ≡ none))

node_case : (names : List Text) (net : Net) → NodeCase names net
node_case names net = elim (Bool-cases net.is_ground) [
  | inl ground_net ↦ inl (rw ground_net refl)
  | inr signal ↦ elim (Bool-cases (can_preserve names net)) [
    | inl kept ↦ inr (inl (signal, kept, rw (signal, kept) refl))
    | inr mangled ↦ inr (inr (rw (signal, mangled) refl))
  ]
]

Apart-cases :
    (names : List Text) (a b : Net)
    → NamesDiffer names a b
    → NodeCase names a
    → NodeCase names b
    → Apart (kept_node names) NodesApart (λ x y h. inr h) (kept_node names a) (kept_node names b)
Apart-cases names a b h (inr (inr k)) _ = rw k tt
Apart-cases names a b h (inl k) (inr (inr l)) = rw (k, l) tt
Apart-cases names a b h (inr (inl (_, _, k))) (inr (inr l)) = rw (k, l) tt
Apart-cases names a b h (inl k) (inl l) = rw (k, l) (inl (refl, refl))
Apart-cases names a b h (inl k) (inr (inl (_, kept, l))) =
    rw (k, l) (inr (preserved_not_zero names b kept))
Apart-cases names a b h (inr (inl (_, kept, k))) (inl l) =
    rw (k, l) (inr (λ e. preserved_not_zero names a kept (sym e)))
Apart-cases names a b h (inr (inl (signal, kept, k))) (inr (inl (signal_too, _, l))) =
    rw (k, l) (inr (h (ap not signal) (ap not signal_too) (counted_once names a kept)))

nodes-Apart :
    (names : List Text) (a b : Net)
    → NamesDiffer names a b
    → Apart (kept_node names) NodesApart (λ x y h. inr h) (kept_node names a) (kept_node names b)
nodes-Apart names a b h = Apart-cases names a b h (node_case names a) (node_case names b)

abbrev pub NodesDiffer : SpiceNetNameMapping → SpiceNetNameMapping → Type 0
NodesDiffer a b = NodesApart a.node b.node

-- No two nets of the name map have node names that agree but for case, other than two that have
-- the ground node 0, whatever the design.
pub lower_names-nodes : (design : Design) → Pairwise NodesDiffer (lower_names design).nets
unfolding lower_names net_nodes
lower_names-nodes design =
    let nets = emitted_nets design in
    let names = signal_names nets in
    Pairwise-map (λ a b. NodesApart a.1 b.1) NodesDiffer _ _ (λ a b h. h)
      (name_all-Pairwise (kept_node names) NodesApart (λ x y h. inr h) (name_net names)
        (name_net-Keeps names) nets (used_nodes names nets (codes "0" ∷ []))
        (used_nodes-IsUsed names nets)
        (Pairwise-weaken (NamesDiffer names) _ nets (nodes-Apart names) (
          KeysDiffer-Pairwise is_signal (λ net. net.name) signal_names signal_names-takes
            signal_names-skips names nets (λ key. omega arith))))

abbrev pub IsGroundOrNot : Net × Text → Type 0
IsGroundOrNot (net, node) =
    ((net.is_ground ≡ true) × (node ≡ codes "0"))
    ⊎ ((net.is_ground ≡ false) × (spice_case_key node ≢ codes "0"))

name_net-IsGroundOrNot :
    (names : List Text) (net : Net) (used : List Text)
    → contains used (codes "0") ≡ true
    → IsGroundOrNot (net, (name_net names net used).0)
unfolding name_net unique_mangled
name_net-IsGroundOrNot names net used zero_used = elim (Bool-cases net.is_ground) [
  | inl ground_net ↦ rw ground_net (inl (refl, refl))
  | inr signal ↦ elim (Bool-cases (can_preserve names net)) [
    | inl kept ↦
        rw (signal, kept) (inr (refl, λ e. preserved_not_zero names net kept (zero_key ∙ sym e)))
    | inr mangled ↦
        rw (signal, mangled)
          (inr (
            refl,
            λ e.
                differ_of_used used _ _ zero_used (unique_mangled-fresh (codes "CCN") net.name used)
                  (sym e),
          ))
  ]
]

All-IsGroundOrNot :
    (names : List Text) (nets : List Net) (used : List Text)
    → contains used (codes "0") ≡ true
    → All IsGroundOrNot (name_all (name_net names) nets used)
All-IsGroundOrNot names [] used h = tt
All-IsGroundOrNot names (net ∷ nets) used h = (
  name_net-IsGroundOrNot names net used h,
  All-IsGroundOrNot names nets (name_net names net used).1 (
      Keeps-Grows (kept_node names) NodesApart (λ x y h. inr h) used net (name_net names net used)
        (name_net-Keeps names net used) (codes "0") h),
)

-- A ground net is named 0, and no other net has a node of that key.
pub net_nodes-ground : (design : Design) → All IsGroundOrNot (net_nodes design)
unfolding net_nodes
net_nodes-ground design =
    let nets = emitted_nets design in
    let names = signal_names nets in
    All-IsGroundOrNot names nets (used_nodes names nets (codes "0" ∷ []))
      (used_nodes-keeps names nets (codes "0" ∷ []) (codes "0") (contains-here (codes "0") []))
