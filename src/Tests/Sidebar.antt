-- ===== src/Tests/Sidebar.antt =====
-- The badges of a head (src/modules/sidebar/sidebar.service.ts).
use isp_sam_backend.Prelude.{
  ◌+◌, ◌*◌, ◌≡◌, ◌↔◌, true, not, none, some, length, select, refl, arith, if◌then◌else◌,
}
use isp_sam_backend.Db.{
  probable_churn, terminated, same_status, new, disconnection, normal, sam_head, not_required,
  Account, Change, Store, find_many, ok, IsConsistent, is_consistent,
}
use isp_sam_backend.Dates.{start_of_day_utc, day_ms}
use isp_sam_backend.Dates.Laws.{midnight}
use isp_sam_backend.Scope.{Requester}
use isp_sam_backend.Accounts.View.{unassigned, listed}
use isp_sam_backend.Approvals.Queue.{list_pending, count_pending}
use isp_sam_backend.Accounts.Import.Write.Unique.{IsIndexed}
use isp_sam_backend.Churn.{ChurnList, pending_of, row_of, list_probable_churn}
use isp_sam_backend.Churn.Sorted.{Occurs}
use isp_sam_backend.Sidebar.{
  awaits_prompt, may_assign, get_counts, count_probable_churn_due, count_unassigned_customers,
}
use isp_sam_backend.Sidebar.Laws.{AwaitsAnswer, get_counts_lem}
use isp_sam_backend.Sidebar.Page.{counted-Occurs}
use isp_sam_backend.Tests.Data.{account_of, change_of, store_of, world_at}

abbrev head : Requester
head = record { id = 5; role = sam_head }

-- A disconnection whose prompt was due on day 9, of a customer whom nobody owns.
abbrev waited : Change
waited = record (change_of disconnection (some normal) not_required) {
  retention_prompt_due_at = some (9 * day_ms);
}

abbrev waiting : Store
waiting = store_of (record (account_of new probable_churn) { sam_owner_id = none }) waited

badges :
    let m = get_counts (world_at (10 * day_ms + 7)) head waiting in
    (m.approvals ≡ 0) × (m.probable_churn ≡ 1) × (m.unassigned_customers ≡ 1)
unfolding get_counts count_pending count_probable_churn_due count_unassigned_customers
    start_of_day_utc
badges = (refl, refl, refl)

get_counts_lem_example :
    let today = midnight (10 * day_ms + 7) in
    let m = get_counts (world_at (10 * day_ms + 7)) head waiting in
    (m.approvals ≡ length (list_pending head waiting))
    × (m.probable_churn ≡ length (find_many (awaits_prompt head today waiting) waiting.changes))
    × ((c : Change)
        → (awaits_prompt head today waiting c ≡ true) ↔ AwaitsAnswer head today waiting c)
    × (m.unassigned_customers ≡ (
        if may_assign head
        then length (
            select
              (λ a. not (same_status a.contract_status terminated))
              (listed none (some unassigned) head waiting))
        else 0))
get_counts_lem_example = get_counts_lem (world_at (10 * day_ms + 7)) head waiting

waiting-IsConsistent : IsConsistent waiting
unfolding is_consistent
waiting-IsConsistent = record {
  sound = record {
    keyed = λ k c e. ground arith;
    listed = λ k c e. ground arith;
    owned = λ k c e. ground arith;
  };
  rows = λ k c e. ground arith;
}

waiting-IsIndexed : IsIndexed waiting.accounts
waiting-IsIndexed = record {
  keyed = λ k b e. ground arith;
  listed = λ k b e. ground arith;
  unique = λ c j k a b x e f p q. ground arith;
}

counted-Occurs_example :
    let today = midnight (10 * day_ms + 7) in
    (l : ChurnList) × ((list_probable_churn (world_at (10 * day_ms + 7)) head waiting).0 ≡ ok l)
    × ((a : Account) × (d : Change) × (waiting.accounts.row 1 ≡ some a)
        × (pending_of waiting a ≡ some d)
        × Occurs (row_of today a d) l.rows)
counted-Occurs_example =
    counted-Occurs (world_at (10 * day_ms + 7)) head waiting waiting-IsConsistent waiting-IsIndexed
      (λ k c e. ground arith) 7 waited refl refl refl
