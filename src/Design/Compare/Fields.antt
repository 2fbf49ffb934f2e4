-- ===== src/Design/Compare/Fields.antt =====
-- The comparisons of quantities, nets, sweeps and transient runs are orders, exact ones.
use circuitc.Prelude.{
  ℕ, arith, if◌then◌else◌, ◌==◌, ◌≡◌, refl, sym, ap, ◌∙◌, Text, compare, Bool, true, false,
}
use circuitc.Prelude.Sorting.{compare_text}
use circuitc.Prelude.Sorting.Laws.{
  IsComparison, IsExact, then_order-eq, compare-IsComparison, compare-IsExact, comap-IsComparison,
  then-IsComparison,
}
use circuitc.Prelude.Sorting.Sorted.{compare_text-IsComparison, compare_text-IsExact}
use circuitc.Quantity.{
  Quantity, PhysicalUnit, ohm, volt, ampere, farad, henry, hertz, second, degree, dimensionless,
}
use circuitc.Quantity.Order.{compare_ℤ}
use circuitc.Design.{Net, AcLinearSweep, Transient}
use circuitc.Design.Compare.{
  bool_rank, compare_bool, unit_rank, compare_quantity_fields, compare_sweeps, compare_transients,
  compare_nets,
}

bool_rank-inj : (a b : Bool) → bool_rank a ≡ bool_rank b → a ≡ b
bool_rank-inj false false h = refl
bool_rank-inj false true h = absurd (omega arith)
bool_rank-inj true false h = absurd (omega arith)
bool_rank-inj true true h = refl

pub compare_bool-IsComparison : IsComparison compare_bool
compare_bool-IsComparison = comap-IsComparison compare-IsComparison bool_rank

compare_bool-IsExact : IsExact compare_bool
compare_bool-IsExact a b h = bool_rank-inj a b (compare-IsExact _ _ h)

compare_ℤ-IsComparison : IsComparison compare_ℤ
compare_ℤ-IsComparison = record {
  flips = λ a b. ground arith;
  lt_trans = λ a b c h k. ground arith;
  eq_left = λ a b c h. ground arith;
}

pub compare_ℤ-IsExact : IsExact compare_ℤ
compare_ℤ-IsExact a b h = ground arith

unit_at : ℕ → PhysicalUnit
unit_at n =
    if n == 0
    then ohm
    else if n == 1
    then volt
    else if n == 2
    then ampere
    else if n == 3
    then farad
    else if n == 4
    then henry
    else if n == 5
    then hertz
    else if n == 6
    then second
    else if n == 7
    then degree
    else dimensionless

unit_at-unit_rank : (u : PhysicalUnit) → unit_at (unit_rank u) ≡ u
unfolding unit_at
unit_at-unit_rank ohm = refl
unit_at-unit_rank volt = refl
unit_at-unit_rank ampere = refl
unit_at-unit_rank farad = refl
unit_at-unit_rank henry = refl
unit_at-unit_rank hertz = refl
unit_at-unit_rank second = refl
unit_at-unit_rank degree = refl
unit_at-unit_rank dimensionless = refl

pub unit_rank-inj : (u v : PhysicalUnit) → unit_rank u ≡ unit_rank v → u ≡ v
unit_rank-inj u v h = sym (unit_at-unit_rank u) ∙ ap unit_at h ∙ unit_at-unit_rank v

pub compare_quantity_fields-IsComparison : IsComparison compare_quantity_fields
unfolding compare_quantity_fields
compare_quantity_fields-IsComparison =
    then-IsComparison (comap-IsComparison compare-IsComparison (λ (q : Quantity). unit_rank q.unit))
      (then-IsComparison
        (comap-IsComparison compare_ℤ-IsComparison (λ (q : Quantity). q.coefficient))
        (comap-IsComparison compare_ℤ-IsComparison (λ (q : Quantity). q.exponent)))

pub compare_quantity_fields-IsExact : IsExact compare_quantity_fields
unfolding compare_quantity_fields
compare_quantity_fields-IsExact a b h =
    let (u, h1) = then_order-eq (compare (unit_rank a.unit) (unit_rank b.unit)) _ h in
    let (c, e) = then_order-eq (compare_ℤ a.coefficient b.coefficient) _ h1 in
    λ i. record {
      coefficient = compare_ℤ-IsExact a.coefficient b.coefficient c i;
      exponent = compare_ℤ-IsExact a.exponent b.exponent e i;
      unit = unit_rank-inj a.unit b.unit (compare-IsExact _ _ u) i;
    }

pub compare_nets-IsComparison : IsComparison compare_nets
compare_nets-IsComparison =
    then-IsComparison (comap-IsComparison compare_bool-IsComparison (λ (n : Net). n.is_ground))
      (comap-IsComparison compare_text-IsComparison (λ (n : Net). n.name))

pub compare_nets-IsExact : IsExact compare_nets
compare_nets-IsExact a b h =
    let (g, n) = then_order-eq (compare_bool a.is_ground b.is_ground) _ h in
    λ i. record {
      name = compare_text-IsExact a.name b.name n i;
      is_ground = compare_bool-IsExact a.is_ground b.is_ground g i;
    }

pub field_order :
    {A : Type 0} (f : A → Quantity) → IsComparison (λ a b. compare_quantity_fields (f a) (f b))
field_order f = comap-IsComparison compare_quantity_fields-IsComparison f

pub text_order : {A : Type 0} (f : A → Text) → IsComparison (λ a b. compare_text (f a) (f b))
text_order f = comap-IsComparison compare_text-IsComparison f

pub compare_sweeps-IsComparison : IsComparison compare_sweeps
compare_sweeps-IsComparison = then-IsComparison (text_order (λ (s : AcLinearSweep). s.source)) (
    then-IsComparison (comap-IsComparison compare-IsComparison (λ (s : AcLinearSweep). s.points)) (
      then-IsComparison (field_order (λ (s : AcLinearSweep). s.start_frequency)) (
        then-IsComparison (field_order (λ (s : AcLinearSweep). s.stop_frequency)) (
          then-IsComparison (field_order (λ (s : AcLinearSweep). s.magnitude))
            (field_order (λ (s : AcLinearSweep). s.phase))))))

pub compare_sweeps-IsExact : IsExact compare_sweeps
compare_sweeps-IsExact a b h =
    let (source, h1) = then_order-eq (compare_text a.source b.source) _ h in
    let (points, h2) = then_order-eq (compare a.points b.points) _ h1 in
    let (start, h3) =
      then_order-eq (compare_quantity_fields a.start_frequency b.start_frequency) _ h2 in
    let (stop, h4) =
      then_order-eq (compare_quantity_fields a.stop_frequency b.stop_frequency) _ h3 in
    let (magnitude, phase) = then_order-eq (compare_quantity_fields a.magnitude b.magnitude) _ h4 in
    λ i. record {
      source = compare_text-IsExact _ _ source i;
      points = compare-IsExact _ _ points i;
      start_frequency = compare_quantity_fields-IsExact _ _ start i;
      stop_frequency = compare_quantity_fields-IsExact _ _ stop i;
      magnitude = compare_quantity_fields-IsExact _ _ magnitude i;
      phase = compare_quantity_fields-IsExact _ _ phase i;
    }

pub compare_transients-IsComparison : IsComparison compare_transients
compare_transients-IsComparison = then-IsComparison (field_order (λ (s : Transient). s.step)) (
    then-IsComparison (field_order (λ (s : Transient). s.stop)) (
      then-IsComparison (field_order (λ (s : Transient). s.start))
        (comap-IsComparison compare_bool-IsComparison (λ (s : Transient). s.uic))))

pub compare_transients-IsExact : IsExact compare_transients
compare_transients-IsExact a b h =
    let (step, h1) = then_order-eq (compare_quantity_fields a.step b.step) _ h in
    let (stop, h2) = then_order-eq (compare_quantity_fields a.stop b.stop) _ h1 in
    let (start, uic) = then_order-eq (compare_quantity_fields a.start b.start) _ h2 in
    λ i. record {
      step = compare_quantity_fields-IsExact _ _ step i;
      stop = compare_quantity_fields-IsExact _ _ stop i;
      start = compare_quantity_fields-IsExact _ _ start i;
      uic = compare_bool-IsExact a.uic b.uic uic i;
    }
