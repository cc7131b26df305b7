-- ===== src/Changes/Crm/Laws.antt =====
-- When a refresh touches the account, and who may read a file
-- (src/modules/commercial-changes/commercial-changes.service.ts).
use isp_sam_backend.Prelude.{
  ℕ, ◌≡◌, ◌≢◌, ◌⊎◌, none, some, arith, refl, List, inl, inr, Option-cases, String,
}
use isp_sam_backend.Text.{bind_truthy}
use isp_sam_backend.Db.{
  disconnection, sam, Account, Change, Store, ok, err, change_not_found, update_change, ◌>>=◌,
}
use isp_sam_backend.World.{World, FileKind, ServiceOrder, CrmReply, answer, http_error, other_error}
use isp_sam_backend.Scope.{Requester}
use isp_sam_backend.Notifications.{send_crm_status_change_alert}
use isp_sam_backend.Changes.Apply.{mirrored, apply_change_to_account}
use isp_sam_backend.Changes.Crm.{
  refresh_crm_status, get_file_url, announce, refresh_with, refreshed, with_orders, of_reply,
  find_order,
}

-- An announcement never fails and writes audit rows only.
announce_same :
    (w : World) (k : ℕ) (c : Change) (a : Account) (o : ServiceOrder) (s : Store)
    → let (r, s') = announce w k c a o s in
      (r ≡ ok tt) × (s'.accounts ≡ s.accounts) × (s'.changes ≡ s.changes)
unfolding announce send_crm_status_change_alert
announce_same w k c a o s = (ground arith, ground arith, ground arith)

-- The account is as it was, or has the terms of a change that is no disconnection.
abbrev pub OnlyMirrored : Change → Account → Store → Store → Type 0
OnlyMirrored c a s s' =
    ((s'.accounts.row c.account_id ≡ some a)
      ⊎ ((s'.accounts.row c.account_id ≡ some (mirrored c a))
          × (c.change_type ≢ disconnection)
          × (c.account_applied_at ≡ none)))
    × ((j : ℕ) → j ≢ c.account_id → s'.accounts.row j ≡ s.accounts.row j)

module _ (w : World) (k : ℕ) (s : Store) (c : Change) (a : Account)
    (found : s.changes.row k ≡ some c) (owner : s.accounts.row c.account_id ≡ some a) where
  refresh_with_lem : (o : ServiceOrder) → OnlyMirrored c a s (refresh_with w k c a o s).1
  unfolding refresh_with apply_change_to_account
  refresh_with_lem o =
      let s1 = (update_change k (refreshed w.now o) s).1 in
      let q = announce_same w k c a o s1 in (ground arith, λ j ne. ground arith)

  with_orders_lem :
      (id : String) (os : List ServiceOrder) → OnlyMirrored c a s (with_orders w k c a id os s).1
  with_orders_lem id os = elim (Option-cases (find_order id os)) [
    | inl e ↦ (ground arith, λ j ne. ground arith)
    | inr (o, e) ↦ let (q, r) = refresh_with_lem o in (ground arith, λ j ne. ground (arith, r j ne))
  ]

  reply_lem :
      (id : String) (reply : CrmReply (List ServiceOrder))
      → OnlyMirrored c a s ((of_reply reply >>= with_orders w k c a id) s).1
  unfolding of_reply
  reply_lem id (answer os) = with_orders_lem id os
  reply_lem id (http_error code m) = (inl owner, λ j ne. refl)
  reply_lem id (other_error m) = (inl owner, λ j ne. refl)

  -- A refresh leaves every account as it was, but for the account of a change that is no
  -- disconnection and that is not yet applied, which may get the change's terms. A disconnection is
  -- never terminated by a refresh.
  pub refresh_crm_status_lem :
      let s' = (refresh_crm_status w k s).1 in
      ((s'.accounts.row c.account_id ≡ some a)
        ⊎ ((s'.accounts.row c.account_id ≡ some (mirrored c a))
            × (c.change_type ≢ disconnection)
            × (c.account_applied_at ≡ none)))
      × ((j : ℕ) → j ≢ c.account_id → s'.accounts.row j ≡ s.accounts.row j)
  unfolding refresh_crm_status
  refresh_crm_status_lem = elim (Option-cases (bind_truthy c.crm_service_order_id)) [
    | inl e ↦ (ground arith, λ j ne. ground arith)
    | inr (id, e) ↦ elim (Option-cases (bind_truthy a.external_crm_id)) [
      | inl f ↦ (ground arith, λ j ne. ground arith)
      | inr (customer, f) ↦
          let (q, r) = reply_lem id (w.list_service_orders customer) in
          (ground arith, λ j ne. ground (arith, r j ne))
    ]
  ]

-- A SAM who asks for a file of a change on another's customer gets the answer of a change that
-- does not exist.
pub get_file_url_hidden :
    (k : ℕ) (s : Store) (c : Change) (a : Account) (kind : FileKind) (r : Requester)
    → s.changes.row k ≡ some c
    → s.accounts.row c.account_id ≡ some a
    → r.role ≡ sam
    → a.sam_owner_id ≢ some r.id
    → get_file_url k kind r s ≡ (err change_not_found, s)
unfolding get_file_url
get_file_url_hidden k s c a kind r f g e ne = ground arith
