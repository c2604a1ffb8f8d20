-- ===== src/Operator/Pdpb.antt =====
-- metapb.OperatorStatus, with the value `invalid` that operator/status.go adds past the last one.
pub data OperatorStatus : Type 0 where
  success timeout cancel replace running invalid : OperatorStatus
