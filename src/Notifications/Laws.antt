-- ===== src/Notifications/Laws.antt =====
-- What an alert leaves alone (src/services/email/notifications.service.ts).
use isp_sam_backend.Prelude.{ℕ, ◌≡◌, ◌≢◌, ◌⊎◌, Option, some, arith}
use isp_sam_backend.Db.{Change, Store, Error, err}
use isp_sam_backend.World.{World}
use isp_sam_backend.Notifications.{send_commercial_change_alert}

-- An alert about a change that is there never fails, and writes nothing but audit rows and the
-- notification date of that change.
pub send_commercial_change_alert_lem :
    (w : World) (k : ℕ) (owner : Option ℕ) (by : ℕ) (s : Store) (c : Change)
    → s.changes.row k ≡ some c
    → let (r, s') = send_commercial_change_alert w k owner by s in
      ((e : Error) → r ≢ err e)
      × (s'.accounts ≡ s.accounts)
      × (s'.users ≡ s.users)
      × (s'.events ≡ s.events)
      × ((s'.changes.row k ≡ some c)
          ⊎ (s'.changes.row k ≡ some (record c { accounts_notified_date = some w.now })))
      × ((j : ℕ) → j ≢ k → s'.changes.row j ≡ s.changes.row j)
unfolding send_commercial_change_alert
send_commercial_change_alert_lem w k owner by s c f = (
  λ e. ground arith,
  ground arith,
  ground arith,
  ground arith,
  ground arith,
  λ j ne. ground arith,
)
