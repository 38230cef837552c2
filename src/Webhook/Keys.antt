-- ===== src/Webhook/Keys.antt =====
-- The keys that payloads are known by.
use gh_report.Prelude.{◌^◌, ◌<◌, ◌≡◌, ◌↔◌, to_string-injective, to_string, ap}
use gh_report.Webhook.{WebhookRepository, build_repository_from_payload}

-- Repositories built from payloads have the same inventory key exactly when their 64-bit ids are
-- the same.
pub inventory_key_iff :
    (a b : WebhookRepository)
    → a.id < 2 ^ 64
    → b.id < 2 ^ 64
    → ((build_repository_from_payload a).inventory_key
        ≡ (build_repository_from_payload b).inventory_key)
      ↔ (a.id ≡ b.id)
unfolding build_repository_from_payload
inventory_key_iff a b ha hb = ((λ h. to_string-injective a.id b.id ha hb h), λ h. ap to_string h)
