-- ===== src/Design.antt =====
-- src/design.rs: the Design IR, with its parts in the children. A Rust `String` is the list of its
-- UTF-8 bytes, a signed machine integer is a `ℤ`, an unsigned one a number.
mod Geometry
mod Part
mod Simulation
mod Product
pub mod Sample
pub mod Compare
pub mod Canonical
unfoldable pub use Geometry.*
pub use Part.*
pub use Simulation.*
pub use Product.*
use circuitc.Prelude.{ℕ, List, Option, Text}

pub record Component : Type 0 where
  pub path : Text
  pub reference : Text
  pub part : PartIdentity
  pub symbol : SymbolBinding
  pub schematic_placement : SchematicPlacement
  pub value : ComponentValue
  pub connections : List Connection
  pub physical : Option PhysicalImplementation
  pub simulation : Option SimulationModel

pub record Design : Type 0 where
  pub schema_version : ℕ
  pub name : Text
  pub nets : List Net
  pub modules : List ModuleInstance
  pub components : List Component
  pub analyses : List SimulationAnalysis
  pub assertions : List SimulationAssertion
  pub board : Board
  pub product : ProductIntent
