-- ===== src/Kernel/Policy/Projection.antt =====
-- The canonical JSON that the policy, the challenge and the quote are hashed by
-- (spikes/pi-wielder/src/kernel/policy-engine.mjs).
use skill_asset_protocol.Base.{ℕ, List, [], ◌∷◌, Option, none, some, JsString, js, pos, decimal}
use skill_asset_protocol.Kernel.Platform.{Platform}
use skill_asset_protocol.Kernel.Canonical.{
  Json, text, number, array, object, Items, nil, cons, Fields, end, field, canonical_json,
}
use skill_asset_protocol.Kernel.Policy.Document.{Seller, Policy}
use skill_asset_protocol.Kernel.Policy.Request.{Extra, Candidate, PaymentRequired}

abbrev pub texts : List JsString → Items
texts [] = nil
texts (s ∷ ss) = cons (text s) (texts ss)

-- An atomic amount is stored as its canonical text.
abbrev pub amount_json : ℕ → Json
amount_json n = text (decimal n)

abbrev pub seller_json : Seller → Json
seller_json s = object (
    field (js "origin") (text s.origin) (
      field (js "pathPrefixes") (array (texts s.path_prefixes)) (
        field (js "payTo") (text s.pay_to) (
          field (js "evidencePath") (text s.evidence_path) (
            field (js "executionSigner") (text s.execution_signer) (
              field (js "refundSigner") (text s.refund_signer) (
                field (js "refundSource") (text s.refund_source) (
                  field (js "perRequestMaxAtomic") (amount_json s.per_request_max) (
                    field (js "autoApproveAtomic") (amount_json s.auto_approve) (
                      field (js "humanApproveAtomic") (amount_json s.human_approve) (
                        field (js "sellerSessionMaxAtomic") (amount_json s.seller_session_max)
                          end)))))))))))

abbrev pub sellers_json : List Seller → Items
sellers_json [] = nil
sellers_json (s ∷ ss) = cons (seller_json s) (sellers_json ss)

unfoldable pub policy_json : Policy → Json
policy_json p = object (
    field (js "schemaVersion") (number (pos 1)) (
      field (js "network") (text p.network) (
        field (js "asset") (text p.asset) (
          field (js "wallet") (text p.wallet) (
            field (js "methods") (array (texts p.methods)) (
              field (js "sellers") (array (sellers_json p.sellers)) (
                field (js "sessionMaxAtomic") (amount_json p.session_max) (
                  field (js "rolling24hMaxAtomic") (amount_json p.rolling_24h_max) (
                    field (js "challengeMaxAgeMs") (number (pos p.challenge_max_age_ms)) (
                      field (js "approvalTtlMs") (number (pos p.approval_ttl_ms)) (
                        field (js "maxPendingApprovals") (number (pos p.max_pending_approvals))
                          (field (js "defaultAction") (text (js "deny")) end))))))))))))

abbrev pub extra_json : Extra → Json
extra_json e = object (
    field (js "name") (text e.name)
      (field (js "version") (text e.version) (transfer_method e.asset_transfer_method)))
  where
    transfer_method : Option JsString → Fields
    transfer_method none = end
    transfer_method (some m) = field (js "assetTransferMethod") (text m) end

abbrev pub candidate_json : Candidate → Json
candidate_json c = object (
    field (js "scheme") (text c.scheme) (
      field (js "network") (text c.network) (
        field (js "asset") (text c.asset) (
          field (js "amount") (amount_json c.amount) (
            field (js "payTo") (text c.pay_to) (
              field (js "maxTimeoutSeconds") (number (pos c.max_timeout_seconds))
                (field (js "extra") (extra_json c.extra) end)))))))

abbrev pub candidates_json : List Candidate → Items
candidates_json [] = nil
candidates_json (c ∷ cs) = cons (candidate_json c) (candidates_json cs)

module _ (p : Platform) where
  -- `challengeProjection`: the resource's URL by its hash.
  unfoldable pub challenge_projection : PaymentRequired → Json
  challenge_projection r = object (
      field (js "x402Version") (number (pos r.x402_version)) (
        field (js "resource")
          (object (
            field (js "urlHash") (text (p.sha256 r.resource.url)) (
              field (js "description") (text r.resource.description)
                (field (js "mimeType") (text r.resource.mime_type) end))))
          (field (js "accepts") (array (candidates_json r.accepts)) end)))

  unfoldable pub hash_json : Json → JsString
  hash_json j = p.sha256 (canonical_json p j)

  -- `sha256(canonicalJson({ challengeHash, acceptedIndex }))`
  unfoldable pub quote_id_of : JsString → ℕ → JsString
  quote_id_of challenge_hash index = hash_json (
      object (
        field (js "challengeHash") (text challenge_hash)
          (field (js "acceptedIndex") (number (pos index)) end)))
