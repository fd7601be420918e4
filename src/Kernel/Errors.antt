-- ===== src/Kernel/Errors.antt =====
-- The codes of `KernelError` that the modelled modules throw.
pub data KernelError : Type 0 where
  canonical_type atomic_format token_format : KernelError
  policy_address hash_format policy_seller_origin policy_resource_path policy_path_duplicate :
      KernelError
  policy_atomic policy_limit_order policy_evidence_path policy_schema_version policy_network :
      KernelError
  policy_asset policy_methods policy_sellers policy_seller_duplicate policy_time : KernelError
  policy_approval_capacity policy_default policy_hash_mismatch input_schema : KernelError
  challenge_schema challenge_amount challenge_timeout challenge_resource challenge_time :
      KernelError
  challenge_projection_schema budget_snapshot decision_schema policy_decision_schema : KernelError
