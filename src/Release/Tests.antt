-- ===== src/Release/Tests.antt =====
-- A small design and its encoding, and two spellings of one quantity.
use circuitc.Prelude.{ℤ, ◌↔◌, ◌≡◌, refl, arith, true, [], ◌∷◌, ◌++◌, pos, negsuc, codes, ◌+ℤ◌, ◌-ℤ◌}
use circuitc.Quantity.{
  Quantity, ohm, ohm, canonicalized, new, normalize_decimal, strip_zeros, bound_exponent,
}
use circuitc.Design.Sample.{ten_kilohm, resistor_1, small_design}
use circuitc.Release.Encoder.{
  Bytes, encode_quantity, encode_i64, encode_i8, be_bytes, encode_tag, encode_string, encode_u64,
  encode_boolean,
}
use circuitc.Release.Parts.{encode_net}
use circuitc.Release.Prefix.Compound.{IsCanonical}
use circuitc.Quantity.Value.{SameValue}
use circuitc.Quantity.Normalize.{IsNormalFormOf, normalize_decimal_iff}
use circuitc.Release.Value.{encode_quantity_iff}
use circuitc.Release.Whole.Injective.{IsDesign, IsComponent, encode_design-inj}

ten_kilohm-IsCanonical : IsCanonical ten_kilohm
unfolding canonicalized new normalize_decimal strip_zeros bound_exponent ◌+ℤ◌ ◌-ℤ◌
ten_kilohm-IsCanonical = (refl, omega arith)

-- The first net of a design: its name behind its length, then the ground mark.
net_bytes :
    encode_net (record { name = codes "GND"; is_ground = true }) []
    ≡ 0 ∷ 0 ∷ 0 ∷ 0 ∷ 0 ∷ 0 ∷ 0 ∷ 3 ∷ (codes "GND" ++ 1 ∷ [])
unfolding encode_net encode_string encode_u64 be_bytes encode_boolean encode_tag
net_bytes = refl

-- A negative exponent is written in two's complement.
quantity_bytes :
    encode_quantity (record { coefficient = pos 1; exponent = negsuc 2; unit = ohm }) []
    ≡ 0 ∷ 0 ∷ 0 ∷ 0 ∷ 0 ∷ 0 ∷ 0 ∷ 1 ∷ 253 ∷ 0 ∷ []
unfolding encode_quantity canonicalized new normalize_decimal strip_zeros bound_exponent ◌+ℤ◌ ◌-ℤ◌
    encode_i64 encode_i8 be_bytes encode_tag
quantity_bytes = refl

resistor_1-IsComponent : IsComponent resistor_1
resistor_1-IsComponent = record {
  path_fits = omega arith;
  reference_fits = omega arith;
  part_fits = omega arith;
  symbol_fits = omega arith;
  schematic_placement_fits = omega arith;
  value_fits = ten_kilohm-IsCanonical;
  connections_fits = omega arith;
  physical_fits = tt;
  simulation_fits = omega arith;
}

small_design-IsDesign : IsDesign small_design
small_design-IsDesign = record {
  schema_version_fits = omega arith;
  name_fits = omega arith;
  nets_fits = omega arith;
  modules_fits = omega arith;
  components_fits = (omega arith, (resistor_1-IsComponent, tt));
  analyses_fits = omega arith;
  assertions_fits = omega arith;
  board_fits = omega arith;
  product_fits = omega arith;
}

encode_design-inj_example : (small_design ≡ small_design) × (◌≡◌ {A = Bytes} (1 ∷ []) (1 ∷ []))
encode_design-inj_example =
    encode_design-inj small_design small_design (1 ∷ []) (1 ∷ []) small_design-IsDesign
      small_design-IsDesign refl

abbrev ohms : ℤ → ℤ → Quantity
ohms c e = record { coefficient = c; exponent = e; unit = ohm }

thousands_normal : IsNormalFormOf (pos 10_000) (pos 0) ohm ten_kilohm
unfolding normalize_decimal strip_zeros bound_exponent ◌+ℤ◌ ◌-ℤ◌
thousands_normal = (normalize_decimal_iff (pos 10_000) (pos 0) ohm ten_kilohm (omega arith)).0 refl

tens_normal : IsNormalFormOf (pos 10) (pos 3) ohm ten_kilohm
unfolding normalize_decimal strip_zeros bound_exponent ◌+ℤ◌ ◌-ℤ◌
tens_normal = (normalize_decimal_iff (pos 10) (pos 3) ohm ten_kilohm (omega arith)).0 refl

encode_quantity_iff_example :
    (encode_quantity (ohms (pos 10_000) (pos 0)) [] ≡ encode_quantity (ohms (pos 10) (pos 3)) [])
    ↔ (SameValue (pos 10_000) (pos 0) (pos 10) (pos 3) × (ohm ≡ ohm))
encode_quantity_iff_example =
    encode_quantity_iff (ohms (pos 10_000) (pos 0)) (ohms (pos 10) (pos 3)) ten_kilohm ten_kilohm []
      (omega arith) (omega arith) thousands_normal tens_normal
