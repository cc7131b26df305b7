-- ===== src/Notifications/Mom/Keeps.antt =====
-- The minutes sent to a customer keep the store consistent
-- (src/services/email/notifications.service.ts).
use isp_sam_backend.Prelude.{String, not}
use isp_sam_backend.Db.Keeps.{Keeps, Keeps-if, Keeps-option, Keeps-bind, Keeps-gets}
use isp_sam_backend.World.{World}
use isp_sam_backend.Notifications.Keeps.{Keeps-finish, Keeps-dispatch}
use isp_sam_backend.Notifications.Mom.{
  MomInput, is_mom_enabled, customer_email, mom_message, mom_head, send_mom_to,
  send_mom_to_customer,
}

Keeps-send_mom_to : (w : World) (i : MomInput) (to : String) → Keeps (send_mom_to w i to)
unfolding send_mom_to
Keeps-send_mom_to w i to =
    Keeps-bind _ _ (Keeps-gets (mom_message w i to)) (λ m. Keeps-dispatch w (mom_head i) m)

pub Keeps-send_mom_to_customer : (w : World) (i : MomInput) → Keeps (send_mom_to_customer w i)
unfolding send_mom_to_customer
Keeps-send_mom_to_customer w i =
    Keeps-if (not (is_mom_enabled w)) _ _ (Keeps-finish _ _ _)
      (Keeps-option (customer_email i) _ _ (Keeps-finish _ _ _) (Keeps-send_mom_to w i))
