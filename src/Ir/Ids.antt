-- ===== src/Ir/Ids.antt =====
-- include/sivra/ir/id.hpp and core/owner_token.hpp: an identifier is an index with its owner's token.
-- The tokens come from one global counter, so whoever makes an owner is given its token.
use sivra.Prelude.{ℕ, ◌≡◌, ◌↔◌, Bool, ◌&&◌, nat_beq, Eq, arith}

abbrev pub OwnerToken : Type 0
OwnerToken = ℕ

pub record OperationId : Type 0 where
  pub index : ℕ
  pub owner : OwnerToken

pub record NodeId : Type 0 where
  pub index : ℕ
  pub owner : OwnerToken

pub record SymbolId : Type 0 where
  pub index : ℕ
  pub owner : OwnerToken

pub record ExternalValueId : Type 0 where
  pub index : ℕ
  pub owner : OwnerToken

abbrev pub operation_id_beq : OperationId → OperationId → Bool
operation_id_beq a b = nat_beq a.index b.index && nat_beq a.owner b.owner

pub operation_id_beq_iff : (a b : OperationId) → (operation_id_beq a b ≡ Bool.true) ↔ (a ≡ b)
operation_id_beq_iff a b = ground arith

instance abbrev pub operation_id_eq : Eq OperationId
operation_id_eq = record { beq = operation_id_beq; beq_iff = operation_id_beq_iff }

abbrev pub node_id_beq : NodeId → NodeId → Bool
node_id_beq a b = nat_beq a.index b.index && nat_beq a.owner b.owner

pub node_id_beq_iff : (a b : NodeId) → (node_id_beq a b ≡ Bool.true) ↔ (a ≡ b)
node_id_beq_iff a b = ground arith

instance abbrev pub node_id_eq : Eq NodeId
node_id_eq = record { beq = node_id_beq; beq_iff = node_id_beq_iff }
