-- ===== src/Release/Encoder.antt =====
-- The methods of `Encoder` in src/release/identity.rs. The encoder only ever appends, so a method
-- is modelled by what stands behind it: `encode_tag v rest` is the byte `v`, then all that the
-- later calls append.
use circuitc.Prelude.{
  ℕ, zero, suc, ◌-◌, ◌/◌, ◌%◌, ◌^◌, Bool, true, false, List, [], ◌∷◌, ◌++◌, length, Option, none,
  some, Text, ℤ, pos, negsuc,
}
use circuitc.Quantity.{
  Quantity, PhysicalUnit, ohm, volt, ampere, farad, henry, hertz, second, degree, dimensionless,
  canonicalized,
}
use circuitc.Design.{
  PointNm, SizeNm, CopperLayer, front, back, ElectricalPinType, ConnectionState, connected,
  no_connect, ApprovedSubstitution,
}

abbrev pub Bytes : Type 0
Bytes = List ℕ

unfoldable pub encode_tag : ℕ → Bytes → Bytes
encode_tag value rest = value ∷ rest

-- `to_be_bytes` of a number of `count` bytes.
unfoldable pub be_bytes : ℕ → ℕ → Bytes → Bytes
be_bytes zero n rest = rest
be_bytes (suc count) n rest = be_bytes count (n / 256) ((n % 256) ∷ rest)

-- The bit pattern of a signed integer, in two's complement.
abbrev pub two's_complement : ℕ → ℤ → ℕ
two's_complement bits (pos n) = n
two's_complement bits (negsuc n) = 2 ^ bits - 1 - n

abbrev bool_byte : Bool → ℕ
bool_byte true = 1
bool_byte false = 0

unfoldable pub encode_boolean : Bool → Bytes → Bytes
encode_boolean value = encode_tag (bool_byte value)

unfoldable pub encode_u32 : ℕ → Bytes → Bytes
encode_u32 = be_bytes 4

unfoldable pub encode_u64 : ℕ → Bytes → Bytes
encode_u64 = be_bytes 8

unfoldable pub encode_i8 : ℤ → Bytes → Bytes
encode_i8 value = be_bytes 1 (two's_complement 8 value)

unfoldable pub encode_i16 : ℤ → Bytes → Bytes
encode_i16 value = be_bytes 2 (two's_complement 16 value)

unfoldable pub encode_i64 : ℤ → Bytes → Bytes
encode_i64 value = be_bytes 8 (two's_complement 64 value)

unfoldable pub encode_string : Text → Bytes → Bytes
encode_string value rest = encode_u64 (length value) (value ++ rest)

module _ {A : Type 0} (encode : A → Bytes → Bytes) where
  -- `for value in values { encode(self, value); }`
  abbrev pub encode_each : List A → Bytes → Bytes
  encode_each [] rest = rest
  encode_each (value ∷ values) rest = encode value (encode_each values rest)

  unfoldable pub encode_sequence : List A → Bytes → Bytes
  encode_sequence values rest = encode_u64 (length values) (encode_each values rest)

  unfoldable pub encode_option : Option A → Bytes → Bytes
  encode_option (some value) rest = encode_tag 1 (encode value rest)
  encode_option none rest = encode_tag 0 rest

unfoldable pub encode_point : PointNm → Bytes → Bytes
encode_point p rest = encode_i64 p.x (encode_i64 p.y rest)

unfoldable pub encode_size : SizeNm → Bytes → Bytes
encode_size s rest = encode_i64 s.width (encode_i64 s.height rest)

abbrev pub layer_tag : CopperLayer → ℕ
layer_tag front = 0
layer_tag back = 1

unfoldable pub encode_layer : CopperLayer → Bytes → Bytes
encode_layer layer = encode_tag (layer_tag layer)

abbrev pub electrical_tag : ElectricalPinType → ℕ
electrical_tag ElectricalPinType.input = 0
electrical_tag ElectricalPinType.output = 1
electrical_tag ElectricalPinType.bidirectional = 2
electrical_tag ElectricalPinType.passive = 3
electrical_tag ElectricalPinType.power_input = 4
electrical_tag ElectricalPinType.power_output = 5
electrical_tag ElectricalPinType.open_collector = 6
electrical_tag ElectricalPinType.open_emitter = 7

unfoldable pub encode_electrical_type : ElectricalPinType → Bytes → Bytes
encode_electrical_type kind = encode_tag (electrical_tag kind)

unfoldable pub encode_connection_state : ConnectionState → Bytes → Bytes
encode_connection_state (connected net) rest = encode_tag 0 (encode_string net rest)
encode_connection_state no_connect rest = encode_tag 1 rest

abbrev pub unit_tag : PhysicalUnit → ℕ
unit_tag ohm = 0
unit_tag volt = 1
unit_tag ampere = 2
unit_tag farad = 3
unit_tag henry = 4
unit_tag hertz = 5
unit_tag second = 6
unit_tag degree = 7
unit_tag dimensionless = 8

unfoldable pub encode_quantity : Quantity → Bytes → Bytes
encode_quantity q rest =
    let q = canonicalized q in
    encode_i64 q.coefficient (encode_i8 q.exponent (encode_tag (unit_tag q.unit) rest))

unfoldable pub encode_substitution : ApprovedSubstitution → Bytes → Bytes
encode_substitution s rest =
    encode_string s.manufacturer
      (encode_string s.manufacturer_part_number (encode_string s.package_name rest))
