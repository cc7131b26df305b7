-- ===== src/Dashboard/Waterfall.antt =====
-- The ARC waterfall of `existingBase` and `computeNewBase` in
-- src/modules/dashboard/dashboard.service.ts, with amounts as the store has them, not in lakhs.
pub mod Sums
pub mod Laws
use isp_sam_backend.Prelude.{
  ℕ, ℤ, pos, sub_ℕ, ◌+ℤ◌, ◌-ℤ◌, ◌+◌, Bool, true, false, not, ◌&&◌, ◌||◌, Option, none, some, List,
  [], ◌∷◌, map, length, select, includes, is_some, leb, if◌then◌else◌,
}
use isp_sam_backend.Db.{
  ChangeType, upgrade, downgrade, rate_revision, disconnection, ApprovalStatus,
  pending_super_admin_2, pending_sam_head, pending_accounts, rejected, same_approval, same_type,
  Account, Change, Store, find_many,
}
use isp_sam_backend.Scope.{Requester}
use isp_sam_backend.Dashboard.Calendar.{UtcDate}
use isp_sam_backend.Dashboard.Fiscal.{FyQuarter, Range, fy_quarter_range}
use isp_sam_backend.Dashboard.Base.{
  kitty_accounts, is_active, is_live, is_terminated, is_churning, sum_of, start_arc,
}

-- The variables of the loop over the changes; the last is the set `disconnectedViaTxn`.
pub record Buckets : Type 0 where
  pub upgrades_count : ℕ
  pub upgrades_arc_added : ℤ
  pub downgrades_count : ℕ
  pub downgrades_arc_reduced : ℤ
  pub rate_revs_count : ℕ
  pub rate_revs_arc_change : ℤ
  pub terminations_count : ℕ
  pub terminations_arc_lost : ℕ
  pub disconnected_via_txn : List ℕ

abbrev pub no_buckets : Buckets
no_buckets = record {
  upgrades_count = 0;
  upgrades_arc_added = pos 0;
  downgrades_count = 0;
  downgrades_arc_reduced = pos 0;
  rate_revs_count = 0;
  rate_revs_arc_change = pos 0;
  terminations_count = 0;
  terminations_arc_lost = 0;
  disconnected_via_txn = [];
}

-- The body of the loop.
abbrev count_type : ChangeType → Change → Buckets → Buckets
count_type upgrade c b = record b {
  upgrades_count = b.upgrades_count + 1;
  upgrades_arc_added = b.upgrades_arc_added +ℤ sub_ℕ c.new_arc c.old_arc;
}
count_type downgrade c b = record b {
  downgrades_count = b.downgrades_count + 1;
  downgrades_arc_reduced = b.downgrades_arc_reduced +ℤ sub_ℕ c.old_arc c.new_arc;
}
count_type rate_revision c b = record b {
  rate_revs_count = b.rate_revs_count + 1;
  rate_revs_arc_change = b.rate_revs_arc_change +ℤ sub_ℕ c.old_arc c.new_arc;
}
count_type disconnection c b =
    if is_some c.account_applied_at
    then record b {
      terminations_count = b.terminations_count + 1;
      terminations_arc_lost = b.terminations_arc_lost + c.old_arc;
      disconnected_via_txn = c.account_id ∷ b.disconnected_via_txn;
    }
    else b

unfoldable pub tally : List Change → Buckets → Buckets
tally [] b = b
tally (c ∷ cs) b = tally cs (count_type c.change_type c b)

-- Terminated without a disconnection behind it.
abbrev pub is_imported_terminated : List ℕ → Account → Bool
is_imported_terminated via_txn a = is_terminated a && not (includes a.id via_txn)

-- Waits for the CRM: not applied, not of a leaving account, and no rate revision.
abbrev is_pending_settlement : List ℕ → Change → Bool
is_pending_settlement churning c =
    not (is_some c.account_applied_at)
    && (not (includes c.account_id churning) && not (same_type c.change_type rate_revision))

pub record Waterfall : Type 0 where
  pub total_arc : ℕ
  pub upgrades_arc_added : ℤ
  pub downgrades_arc_reduced : ℤ
  pub terminations_count : ℕ
  pub terminations_arc_lost : ℕ
  pub probable_churn_arc : ℕ
  pub current_arc : ℤ
  pub current_customers : ℤ
  pub terminated_count : ℕ
  pub pending_count : ℕ
  pub pending_net_arc : ℤ

-- `currentArc - waterfallEndArc + probableChurnArc`
abbrev pending_net : ℤ → ℕ → ℤ → ℤ → ℕ → ℕ → ℤ
pending_net current start up down lost churn =
    current -ℤ (pos start +ℤ up -ℤ down -ℤ pos lost) +ℤ pos churn

module _ (accounts : List Account) (changes : List Change) where
  churning_arc : ℕ
  churning_arc = sum_of (λ a. a.current_arc) (select is_churning accounts)

  settling : ℕ
  settling =
      length
        (select (is_pending_settlement (map (λ a. a.id) (select is_churning accounts))) changes)

  -- Without a quarter: the live accounts are current, and the accounts that were imported as
  -- terminated count as terminations.
  unfoldable pub waterfall : (Account → Bool) → Waterfall
  unfolding churning_arc settling tally
  waterfall is_current =
      let b = tally changes no_buckets in
      let imported = select (is_imported_terminated b.disconnected_via_txn) accounts in
      let lost = b.terminations_arc_lost + sum_of start_arc imported in
      let current = sum_of (λ a. a.current_arc) (select is_current accounts) in
      record {
        total_arc = sum_of start_arc accounts;
        upgrades_arc_added = b.upgrades_arc_added;
        downgrades_arc_reduced = b.downgrades_arc_reduced;
        terminations_count = b.terminations_count + length imported;
        terminations_arc_lost = lost;
        probable_churn_arc = churning_arc;
        current_arc = pos current;
        current_customers = pos (length (select is_current accounts));
        terminated_count = length (select is_terminated accounts);
        pending_count = settling;
        pending_net_arc =
            pending_net (pos current) (sum_of start_arc accounts) b.upgrades_arc_added
              b.downgrades_arc_reduced lost churning_arc;
      }

  -- With a quarter the current state is replayed from the start by the changes of the quarter.
  unfoldable pub quarter_waterfall : Waterfall
  unfolding churning_arc settling tally
  quarter_waterfall =
      let b = tally changes no_buckets in
      let start = sum_of start_arc accounts in
      let net = b.upgrades_arc_added -ℤ b.downgrades_arc_reduced -ℤ pos b.terminations_arc_lost in
      let current = pos start +ℤ net -ℤ pos churning_arc in
      record {
        total_arc = start;
        upgrades_arc_added = b.upgrades_arc_added;
        downgrades_arc_reduced = b.downgrades_arc_reduced;
        terminations_count = b.terminations_count;
        terminations_arc_lost = b.terminations_arc_lost;
        probable_churn_arc = churning_arc;
        current_arc = current;
        current_customers =
            pos (length accounts)
            -ℤ pos b.terminations_count
            -ℤ pos (length (select is_churning accounts));
        terminated_count = b.terminations_count;
        pending_count = settling;
        pending_net_arc =
            pending_net current start b.upgrades_arc_added b.downgrades_arc_reduced
              b.terminations_arc_lost churning_arc;
      }

-- Neither on its way through the approvals nor rejected.
abbrev is_settled : ApprovalStatus → Bool
is_settled st =
    not (same_approval st pending_super_admin_2)
    && (not (same_approval st pending_sam_head)
        && (not (same_approval st pending_accounts) && not (same_approval st rejected)))

abbrev is_within : Option Range → ℕ → Bool
is_within none d = true
is_within (some r) d = leb r.start d && leb d r.end

abbrev pub is_of : List Account → Change → Bool
is_of accounts c = includes c.account_id (map (λ a. a.id) accounts)

-- `changes` of `existingBase`
unfoldable pub base_changes : List Account → Option Range → Store → List Change
base_changes accounts range s =
    find_many
      (λ c. is_of accounts c && (is_settled c.approval_status && is_within range c.effective_date))
      s.changes

abbrev pub base_waterfall : Option FyQuarter → UtcDate → List Account → Store → Waterfall
base_waterfall none now accounts s = waterfall accounts (base_changes accounts none s) is_live
base_waterfall (some q) now accounts s =
    quarter_waterfall accounts (base_changes accounts (some (fy_quarter_range q now)) s)

-- `existingBase` after its sweep.
unfoldable pub existing_base : Option FyQuarter → UtcDate → Requester → Option ℕ → Store → Waterfall
unfolding waterfall quarter_waterfall base_changes kitty_accounts
existing_base quarter now r sam_id s = base_waterfall quarter now (kitty_accounts true r sam_id s) s

-- The waterfall of `computeNewBase` after its sweep, from all changes of the accounts.
unfoldable pub new_base : Requester → Option ℕ → Store → Waterfall
unfolding waterfall kitty_accounts
new_base r sam_id s =
    let accounts = kitty_accounts false r sam_id s in
    waterfall accounts (find_many (is_of accounts) s.changes) is_active

-- `pendingApproval`: the changes on their way, and the ARC that they would add.
pub record PendingApproval : Type 0 where
  pub count : ℕ
  pub net_arc : ℤ
  pub awaiting_super_admin_2 : ℕ
  pub awaiting_sam_head : ℕ
  pub awaiting_accounts : ℕ

abbrev awaits_approval : ApprovalStatus → Bool
awaits_approval st =
    same_approval st pending_super_admin_2
    || (same_approval st pending_sam_head || same_approval st pending_accounts)

abbrev net_of : ChangeType → Change → ℤ
net_of disconnection c = pos 0 -ℤ pos c.old_arc
net_of rate_revision c = pos 0
net_of _ c = sub_ℕ c.new_arc c.old_arc

abbrev pub awaits : ApprovalStatus → Change → Bool
awaits st c = same_approval c.approval_status st

abbrev pub sum_net : List Change → ℤ
sum_net [] = pos 0
sum_net (c ∷ cs) = net_of c.change_type c +ℤ sum_net cs

unfoldable pub pending_approval_of : List Account → Store → PendingApproval
pending_approval_of accounts s =
    let cs = find_many (λ c. is_of accounts c && awaits_approval c.approval_status) s.changes in
    record {
      count = length cs;
      net_arc = sum_net cs;
      awaiting_super_admin_2 = length (select (awaits pending_super_admin_2) cs);
      awaiting_sam_head = length (select (awaits pending_sam_head) cs);
      awaiting_accounts = length (select (awaits pending_accounts) cs);
    }
