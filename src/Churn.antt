-- ===== src/Churn.antt =====
-- `listProbableChurn` of src/modules/probable-churn/probable-churn.service.ts: the accounts that are
-- about to leave, the most urgent first.
pub mod Sorted
pub mod Laws
use isp_sam_backend.Prelude.{
  ℕ, ℤ, pos, negsuc, zero, suc, ◌+◌, ◌-◌, ◌/◌, Bool, true, false, not, ◌&&◌, ◌||◌, Option, none,
  some, List, [], ◌∷◌, length, leb, ltb, ◌==◌, if◌then◌else◌, is_some,
}
use isp_sam_backend.Db.{
  sam, same_role, ContractStatus, probable_churn, disconnecting, pending_quick_approval,
  same_status, is_disconnection, Account, Change, Store, Action, pure, gets, ◌>>=◌, ◌>>◌, find_many,
  find_newest,
}
use isp_sam_backend.Dates.{day_ms, start_of_day_utc}
use isp_sam_backend.Scope.{Requester}
use isp_sam_backend.World.{World}
use isp_sam_backend.Changes.Apply.{sweep_due_terminations}

-- What a row says of its change and its account it holds by the rows of the two tables.
pub record ChurnRow : Type 0 where
  pub change : Change
  pub account : Account
  pub days_until_prompt : Option ℤ
  pub days_until_termination : Option ℤ

abbrev pub is_leaving : ContractStatus → Bool
is_leaving st =
    same_status st probable_churn
    || (same_status st disconnecting || same_status st pending_quick_approval)

abbrev is_own : ℕ → Option ℕ → Bool
is_own user none = false
is_own user (some o) = o == user

-- `accountWhere`
abbrev pub is_shown : Requester → Account → Bool
is_shown r a =
    is_leaving a.contract_status && (not (same_role r.role sam) || is_own r.id a.sam_owner_id)

abbrev pub is_pending : ℕ → Change → Bool
is_pending account c =
    c.account_id == account
    && (is_disconnection c.change_type && not (is_some c.account_applied_at))

-- `byAccount`
abbrev pub pending_of : Store → Account → Option Change
pending_of s a = find_newest (is_pending a.id) s.changes

abbrev negated : ℕ → ℤ
negated zero = pos 0
negated (suc n) = negsuc n

-- `Math.round` of a difference in days: a half is rounded up.
unfoldable pub days_between : ℕ → ℕ → ℤ
days_between target from =
    if leb from target
    then pos ((target - from + 43200000) / day_ms)
    else negated ((from - target + 43199999) / day_ms)

abbrev days_until : ℕ → Option ℕ → Option ℤ
days_until today none = none
days_until today (some d) = some (days_between d today)

abbrev pub row_of : ℕ → Account → Change → ChurnRow
unfolding days_between
row_of today a c = record {
  change = c;
  account = a;
  days_until_prompt = days_until today c.retention_prompt_due_at;
  days_until_termination = days_until today c.scheduled_termination_at;
}

-- The rows of the accounts that have a pending disconnection.
abbrev pub rows_of : ℕ → Store → List Account → List ChurnRow
rows_of today s [] = []
rows_of today s (a ∷ more) =
    let rest = rows_of today s more in
    elim (pending_of s a) [ none ↦ rest | some c ↦ row_of today a c ∷ rest ]

-- The three keys of the comparison. A missing date is the empty text, before every date.
abbrev bucket : ChurnRow → ℕ
bucket x = if same_status x.account.contract_status pending_quick_approval then 0 else 1

abbrev undecided : ChurnRow → ℕ
undecided x = if is_some x.change.retention_decision then 1 else 0

abbrev prompt_key : Option ℕ → ℕ
prompt_key none = 0
prompt_key (some d) = suc d

abbrev prompt : ChurnRow → ℕ
prompt x = prompt_key x.change.retention_prompt_due_at

-- The comparison gives 0 or less.
unfoldable pub no_later : ChurnRow → ChurnRow → Bool
no_later x y =
    if not (bucket x == bucket y)
    then leb (bucket x) (bucket y)
    else if not (undecided x == undecided y)
    then leb (undecided x) (undecided y)
    else leb (prompt x) (prompt y)

-- `sort`, which keeps the order of rows that compare as equal.
insert : ChurnRow → List ChurnRow → List ChurnRow
insert x [] = x ∷ []
insert x (y ∷ ys) = let rest = insert x ys in if no_later x y then x ∷ y ∷ ys else y ∷ rest

unfoldable pub sort_rows : List ChurnRow → List ChurnRow
unfolding insert
sort_rows [] = []
sort_rows (x ∷ xs) = insert x (sort_rows xs)

abbrev pub total_arc : List ChurnRow → ℕ
total_arc [] = 0
total_arc (x ∷ xs) = x.account.current_arc + total_arc xs

pub record ChurnList : Type 0 where
  pub rows : List ChurnRow
  pub count : ℕ
  pub at_risk_arc : ℕ

unfoldable pub churn_rows : ℕ → Requester → Store → List ChurnRow
churn_rows today r s = sort_rows (rows_of today s (find_many (is_shown r) s.accounts))

abbrev pub summed : List ChurnRow → ChurnList
summed rows = record { rows = rows; count = length rows; at_risk_arc = total_arc rows }

-- The sweep comes first, so that accounts past their notice drop off.
unfoldable pub list_probable_churn : World → Requester → Action ChurnList
list_probable_churn w r = do
  sweep_due_terminations w.now
  rows ← gets (churn_rows (start_of_day_utc w.now) r)
  pure (summed rows)
