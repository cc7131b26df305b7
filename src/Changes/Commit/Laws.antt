-- ===== src/Changes/Commit/Laws.antt =====
-- What a new commercial change needs, and where it leaves the account
-- (src/modules/commercial-changes/commercial-changes.service.ts).
use isp_sam_backend.Prelude.{
  ℕ, ◌≡◌, ◌≢◌, ◌≤◌, ◌⊎◌, true, false, Option, none, some, arith, get_or, ℤ, pos, negsuc, refl, inl,
  inr,
}
use isp_sam_backend.Text.{trim, text_length}
use isp_sam_backend.Db.{
  ChangeType, ContractStatus, active, expired, pending, probable_churn, disconnection, is_base,
  Account, User, Store, Error, ok, err, Result-cases,
}
use isp_sam_backend.World.{World}
use isp_sam_backend.Changes.Commit.{admit, carry_out, commit}
use isp_sam_backend.Changes.Commit.Guards.{CommitInput, is_quick_request, valid_days}

-- The contract status is open to a change of the type.
abbrev pub IsOpenFor : ContractStatus → ChangeType → Type 0
IsOpenFor st t =
    (st ≡ active) ⊎ (st ≡ expired) ⊎ (st ≡ pending) ⊎ ((st ≡ probable_churn) × (t ≢ disconnection))

-- What a quick request carries.
abbrev pub IsFitQuick : World → Account → CommitInput → Type 0
IsFitQuick w a i =
    (is_base a.kitty_type ≡ false → w.quick_disconnect_enabled ≡ true)
    × ((n : ℕ) × (i.quick_requested_days ≡ some (pos n)) × (n ≤ 15))
    × (10 ≤ text_length (trim (get_or i.quick_approval_reason "")))

days_of : (d : Option ℤ) → valid_days d ≡ true → (n : ℕ) × (d ≡ some (pos n)) × (n ≤ 15)
days_of (some (pos n)) h = (n, refl, ground arith)
days_of (some (negsuc n)) h = cc
days_of none h = cc

-- What `commit` has established when it starts to write.
pub record IsAdmitted (w : World) (i : CommitInput) (s : Store) (a : Account) (u : User)
    : Type 0 where
  pub account : s.accounts.row i.account_id ≡ some a
  pub user : s.users.row i.performed_by_user_id ≡ some u
  pub open_for : IsOpenFor a.contract_status i.change_type
  pub fit_quick : is_quick_request i ≡ true → IsFitQuick w a i
  pub documented : (i.approval_file ≢ none) ⊎ (i.po_file ≢ none) ⊎ (i.test_mode ≡ true)

module _ (w : World) (i : CommitInput) (s : Store) where
  admit_same : (admit w i s).1 ≡ s
  unfolding admit
  admit_same = ground arith

  module _ (a : Account) (u : User) (h : (admit w i s).0 ≡ ok (a, u)) where
    admit-IsAdmitted : IsAdmitted w i s a u
    unfolding admit
    admit-IsAdmitted = record {
      account = ground arith;
      user = ground arith;
      open_for = ground arith;
      fit_quick =
          λ q. (λ b. ground arith, days_of i.quick_requested_days (ground arith), ground arith);
      documented = ground arith;
    }

  runs : (a : Account) (u : User) → (admit w i s).0 ≡ ok (a, u) → commit w i s ≡ carry_out w i a u s
  unfolding commit
  runs a u h = ground (arith, admit_same)

  stops : (e : Error) → (admit w i s).0 ≡ err e → commit w i s ≡ (err e, s)
  unfolding commit
  stops e h = ground (arith, admit_same)

  -- A commit either fails and writes nothing, or was admitted and is carried out: the account and
  -- the user were there, the account was open for the type of change, a quick request had a number
  -- of days from 0 to 15, a reason of at least ten characters and, on a NEW account, the switch
  -- for the quick path on, and a document was attached or test mode was on.
  pub commit-IsAdmitted :
      ((a : Account) × (u : User) × IsAdmitted w i s a u × (commit w i s ≡ carry_out w i a u s))
      ⊎ ((e : Error) × (commit w i s ≡ (err e, s)))
  commit-IsAdmitted = elim (Result-cases (admit w i s).0) [
    | inl ((a, u), h) ↦ inl (a, u, admit-IsAdmitted a u h, runs a u h)
    | inr (e, h) ↦ inr (e, stops e h)
  ]
