-- ===== src/Changes/Retention/Keeps.antt =====
-- The retention window keeps the store consistent
-- (src/modules/commercial-changes/commercial-changes.service.ts).
use isp_sam_backend.Prelude.{
  ℕ, ◌≡◌, Option, none, some, ◌∙◌, ap, Option-cases, inl, inr, refl, arith,
}
use isp_sam_backend.Db.{Change, Account, RetentionDecision, retain, proceed, is_consistent}
use isp_sam_backend.Db.Keeps.{IsFaithful, Keeps, keeps_rules}
use isp_sam_backend.Text.{bind_truthy}
use isp_sam_backend.World.{World}
use isp_sam_backend.Changes.Orders.{OrderSummary, link_order}
use isp_sam_backend.Changes.Retention.{
  decided, proceeded, enter_probable_churn, retain_auto, auto_retain_pending_disconnection,
  retain_change, proceed_change, settle, retention_decision,
}

prompted-IsFaithful :
    (prompt : ℕ) → IsFaithful (λ r. record r { retention_prompt_due_at = some prompt })
unfolding is_consistent
prompted-IsFaithful prompt = record {
  same_id = λ c. refl;
  same_account = λ c. refl;
  consistent = λ c h. h;
}

decided-IsFaithful : (d : RetentionDecision) (now : ℕ) → IsFaithful (decided d now)
unfolding is_consistent
decided-IsFaithful d now = record {
  same_id = λ c. refl;
  same_account = λ c. refl;
  consistent = λ c h. ground arith;
}

module _ (now : ℕ) (o : OrderSummary) (c : Change) where
  link_order-id : (link_order now o c).id ≡ c.id
  unfolding link_order
  link_order-id = ground arith

  link_order-account : (link_order now o c).account_id ≡ c.account_id
  unfolding link_order
  link_order-account = ground arith

  link_order-is_consistent : is_consistent (link_order now o c) ≡ is_consistent c
  unfolding link_order is_consistent
  link_order-is_consistent = elim (Option-cases (bind_truthy o.crm_service_order_id)) [
    | inl e ↦ elim (Option-cases (bind_truthy o.crm_status)) [
      | inl f ↦ ap is_consistent {x = link_order now o c} {y = c} (ground arith)
      | inr (st, f) ↦
          ap is_consistent {x = link_order now o c}
            {y = record c { crm_status = some st; crm_status_updated_at = some now }} (ground arith)
    ]
    | inr (x, e) ↦
        ap is_consistent {x = link_order now o c}
          {y = record c {
            crm_service_order_id = some x;
            crm_order_number = o.crm_order_number;
            crm_status = o.crm_status;
            crm_status_updated_at = some now;
          }}
          (ground arith)
  ]

pub link_order-IsFaithful :
    (now : ℕ) (o : OrderSummary) (f : Change → Change)
    → IsFaithful f
    → IsFaithful (λ c. link_order now o (f c))
link_order-IsFaithful now o f p = record {
  same_id = λ c. link_order-id now o (f c) ∙ p.same_id c;
  same_account = λ c. link_order-account now o (f c) ∙ p.same_account c;
  consistent = λ c h. link_order-is_consistent now o (f c) ∙ p.consistent c h;
}

proceeded-IsFaithful : (now : ℕ) (o : OrderSummary) → IsFaithful (proceeded now o)
unfolding is_consistent
proceeded-IsFaithful now o =
    link_order-IsFaithful now o _
      (record { same_id = λ c. refl; same_account = λ c. refl; consistent = λ c h. ground arith })

pub Keeps-enter_probable_churn : (k : ℕ) (anchor : Option ℕ) → Keeps (enter_probable_churn k anchor)
unfolding enter_probable_churn
Keeps-enter_probable_churn k anchor = search (keeps_rules, prompted-IsFaithful) depth 9

Keeps-retain_auto : (now account by : ℕ) (c : Option Change) → Keeps (retain_auto now account by c)
unfolding retain_auto
Keeps-retain_auto now account by none = search keeps_rules
Keeps-retain_auto now account by (some c) = search (keeps_rules, decided-IsFaithful) depth 9

pub Keeps-auto_retain :
    (now account by : ℕ) → Keeps (auto_retain_pending_disconnection now account by)
unfolding auto_retain_pending_disconnection
Keeps-auto_retain now account by = search (keeps_rules, Keeps-retain_auto) depth 9

Keeps-settle :
    (w : World) (k by : ℕ) (c : Change) (a : Account) (d : RetentionDecision)
    → Keeps (settle w k by c a d)
unfolding settle retain_change proceed_change
Keeps-settle w k by c a retain = search (keeps_rules, decided-IsFaithful) depth 9
Keeps-settle w k by c a proceed = search (keeps_rules, proceeded-IsFaithful) depth 9

pub Keeps-retention_decision :
    (w : World) (k : ℕ) (d : RetentionDecision) (by : ℕ) → Keeps (retention_decision w k d by)
unfolding retention_decision
Keeps-retention_decision w k d by = search (keeps_rules, Keeps-settle) depth 9
