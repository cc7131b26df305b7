-- ===== src/Integrations/Activation/Laws.antt =====
-- What an activation does to the accounts that are there
-- (src/modules/integrations/integrations.service.ts).
use isp_sam_backend.Prelude.{ℕ, ◌≡◌, false, none, some}
use isp_sam_backend.Db.{Account, Store, ok, err, unique_violation, add, put}
use isp_sam_backend.World.{World}
use isp_sam_backend.Accounts.Import.Write.{is_in_use}
use isp_sam_backend.Integrations.Activation.{
  CustomerPayload, upsert_account, created_account, refreshed_account,
}

-- The columns of an account that the CRM does not own.
abbrev pub KeepsOwn : Account → Account → Type 0
KeepsOwn a a' =
    (a'.contract_status ≡ a.contract_status)
    × (a'.sam_owner_id ≡ a.sam_owner_id)
    × (a'.kitty_type ≡ a.kitty_type)
    × (a'.start_of_period_arc ≡ a.start_of_period_arc)
    × (a'.onboarding_date ≡ a.onboarding_date)
    × (a'.external_crm_id ≡ a.external_crm_id)

-- The columns of the named account as the CRM sent them.
abbrev pub HasSent : CustomerPayload → ℕ → Account → Type 0
HasSent p arc a =
    (a.external_crm_id ≡ some p.external_id)
    × (a.current_arc ≡ arc)
    × (a.circuit_id ≡ p.circuit_id)
    × (a.email ≡ p.email)
    × (a.bandwidth_mbps ≡ p.bandwidth_mbps)

-- The ways in which an upsert ends.
data Upserted (w : World) (p : CustomerPayload) (arc : ℕ) (s : Store) : Type 0 where
  refused : upsert_account w p arc s ≡ (err unique_violation, s) → Upserted w p arc s
  created :
      s.accounts.row w.fresh_id ≡ none
      → is_in_use w.fresh_id (created_account w p arc) s ≡ false
      → upsert_account w p arc s ≡ (
        ok w.fresh_id,
        record s { accounts = add w.fresh_id (created_account w p arc) s.accounts },
      )
      → Upserted w p arc s
  refreshed :
      (a : Account)
      → s.accounts.row a.id ≡ some a
      → a.external_crm_id ≡ some p.external_id
      → is_in_use a.id (refreshed_account p arc a) s ≡ false
      → upsert_account w p arc s
        ≡ (ok a.id, record s { accounts = put a.id (refreshed_account p arc a) s.accounts })
      → Upserted w p arc s
