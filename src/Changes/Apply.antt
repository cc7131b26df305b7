-- ===== src/Changes/Apply.antt =====
-- `applyChangeToAccount` and `sweepDueTerminations` of
-- src/modules/commercial-changes/commercial-changes.service.ts.
pub mod Laws
pub mod Keeps
pub mod Sweep
use isp_sam_backend.Prelude.{
  ℕ, Bool, false, true, not, ◌&&◌, Option, none, some, List, [], ◌∷◌, leb, if◌then◌else◌, or_else,
  is_some, map,
}
use isp_sam_backend.Db.{
  terminated, Account, Change, is_disconnection, is_proceed, Store, Action, pure, or_throw,
  transaction, ◌>>=◌, ◌>>◌, find_change, update_account, update_change, change_not_found, find_many,
  record_not_found, ok, err, gets, Result,
}
use isp_sam_backend.Dates.{start_of_day_utc}

-- The account once the change is mirrored onto it.
abbrev pub mirrored : Change → Account → Account
mirrored c a =
    if is_disconnection c.change_type
    then record a { contract_status = terminated; current_arc = 0 }
    else record a {
      current_arc = c.new_arc;
      bandwidth_mbps = or_else c.new_bandwidth_mbps a.bandwidth_mbps;
    }

abbrev pub mark_applied : ℕ → Change → Change
mark_applied now c = record c { account_applied_at = some now }

apply_unapplied : ℕ → ℕ → Change → Action Change
apply_unapplied now k c = if is_some c.account_applied_at then pure c else do
  update_account c.account_id (mirrored c)
  update_change k (mark_applied now)
  find_change k >>= λ found. or_throw found record_not_found

unfoldable pub apply_change_to_account : ℕ → ℕ → Action Change
unfolding apply_unapplied
apply_change_to_account now k =
    transaction
      (do c ← (find_change k >>= λ found. or_throw found change_not_found); apply_unapplied now k c)

-- `date <= today` in SQL, where a missing date is no match.
abbrev pub reached : Option ℕ → ℕ → Bool
reached none today = false
reached (some d) today = leb d today

-- The rows that the sweep's query selects.
abbrev pub is_due : ℕ → Change → Bool
is_due today c =
    is_disconnection c.change_type
    && (is_proceed c.retention_decision
        && (reached c.scheduled_termination_at today && not (is_some c.account_applied_at)))

apply_each : ℕ → List ℕ → Action (Unit {0})
apply_each now [] = pure tt
apply_each now (k ∷ ks) = let rest = apply_each now ks in apply_change_to_account now k >> rest

unfoldable pub sweep_due_terminations : ℕ → Action (Unit {0})
unfolding apply_each
sweep_due_terminations now = do
  due ← gets (λ s. find_many (is_due (start_of_day_utc now)) s.changes)
  apply_each now (map (λ c. c.id) due)
