-- ===== src/Ir.antt =====
-- lib/ir and include/sivra/ir: the typed expression graph that the other parts work on.
pub mod ValueType
pub mod Constant
pub mod Ids
pub mod Attribute
pub mod Schema
pub mod Signature
pub mod Trait
pub mod Operation
pub mod Catalogue
pub mod Builtins
pub mod Graph
pub mod Builder
pub mod Validation
pub mod Structural
