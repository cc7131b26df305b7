-- ===== src/Integrations.antt =====
-- src/modules/integrations/integrations.service.ts: the webhooks that the CRM sends. The signature
-- check of crm-webhook.middleware.ts and the lists of the admin page are not modelled.
pub mod Events
pub mod Status
pub mod Quick
pub mod Activation
pub mod Once
pub mod Keeps
