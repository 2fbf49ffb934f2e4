-- ===== src/Lib.antt =====
-- CircuitC compiles a circuit design from source text to one design value (the Design IR), and
-- from that to netlists, boards and releases whose identity is a digest of the design. The library
-- models the exact core: the numbers, the texts they come from, the design and its identity bytes.
--
-- Parts, and where each is modelled:
--   Quantity     src/quantity.rs. An exact decimal quantity is a coefficient, an exponent and a unit.
--                `normalize_decimal` is the loop that strips zeros (`strip_zeros`) and then the cap
--                on the exponent with its range checks (`bound_exponent`). `Quantity.Order` has
--                `exact_cmp`, `Quantity.Literal` the engineering label and the SPICE literal.
--   Design       src/design.rs. The records and enums of the Design IR, in the files Design/*, with
--                the containment of rectangles and the transform of placements. `Design.Compare`
--                has the comparisons, `Design.Canonical` `Design::canonicalize`.
--   Validate     src/design.rs. `Design::validate`: `Validate.Whole.validate` is the list of the
--                diagnostics, empty where the source returns `Ok`. A check that pushes one is
--                `report_if`; a loop whose body inserts into a set is `each_after`, which hands the
--                body the elements before. A map that is read is `Prelude.Maps`. `Validate.Grid` has
--                the grids of sweeps and runs, `Validate.Digits` the arithmetic on decimal digits.
--   Release      src/release/identity.rs. The byte encoder of a design, one function `encode_x` for
--                each method of `Encoder` and for each closure inside `Encoder::design` and
--                `Encoder::component`. A function takes the bytes that follow, where the source
--                appends to a vector.
--   Frontend     src/frontend. `Frontend.Span` has spans and the order of diagnostics,
--                `Frontend.Lexer` the lexer, `Frontend.Exact` the lengths, electrical
--                quantities and rotations of quantity.rs.
--   Spice        src/spice.rs. The name map, `lower_names`, in two loops: `net_nodes` for the nets and
--                `component_devices` for the components, each with the set of used keys passed on.
--                `Spice.Netlist` has the text; where the source would panic there is none.
--   Prelude      names of the libraries, Boolean tests, signed integers, results, decimals, UTF-8,
--                stable sorting with its laws, sets and maps.
--
-- How they meet: the lexer makes the number and the word that `Frontend.Exact` reads; that calls
-- `normalize_decimal` of Quantity; a Design holds quantities; Release encodes a Design, and Spice
-- names its nets and components. A design that Validate passes is one that Spice can lower.
--
-- Representation. An integer type of the source is ℤ or the native ℕ. Checked operations and
-- conversions test the range of the exact result and return an option, as the source's do; two's
-- complement is written out in the encoder. In the frontend a text is the list of its characters,
-- and offsets count bytes of UTF-8 (`len_utf8`); in the encoder, the design and its validation
-- a string is the list of its bytes.
-- A function of the frontend that pushes a diagnostic and returns `None` is a result here.
--
-- Fuel. `strip_zeros` has the absolute value of the coefficient, which each round divides by ten.
-- `rounds`, the lexer's loop, has the length of the text, of which each round takes a character.
-- `mangle_loop` has the number of used keys, which `Spice.Fresh` shows to be enough. `search`, the
-- binary search, has as many rounds as a u32 has bits; `quotient_digit` has ten, as a remainder is
-- less than ten divisors. Every other loop is recursion on a list.
--
-- Not modelled: the text of messages, files and processes, the digest of the bytes (SHA-256), and
-- the parts that stand on those named here: parser, elaboration, the projection to KiCad,
-- simulation, routing, product, manufacturing and publication.
pub mod Prelude
pub mod Quantity
pub mod Design
pub mod Release
pub mod Frontend
pub mod Spice
pub mod Validate
