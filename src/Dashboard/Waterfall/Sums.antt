-- ===== src/Dashboard/Waterfall/Sums.antt =====
-- Sums over changes and over accounts (src/modules/dashboard/dashboard.service.ts).
use isp_sam_backend.Prelude.{
  ℤ, pos, ◌+ℤ◌, ◌-ℤ◌, int_laws, sub_ℕ, ◌==◌, ◌≡◌, true, false, List, [], ◌∷◌, map, select, includes,
  is_some, if◌then◌else◌, All, arith, refl, ◌∙◌, Bool-cases, inl, inr,
}
use isp_sam_backend.Db.{
  ChangeType, upgrade, downgrade, rate_revision, disconnection, Account, Change,
}
use isp_sam_backend.Dashboard.Waterfall.{Buckets, count_type, tally, is_of}

abbrev pub sum_ℤ : {A : Type 0} → (A → ℤ) → List A → ℤ
sum_ℤ f [] = pos 0
sum_ℤ f (x ∷ xs) = f x +ℤ sum_ℤ f xs

abbrev gain_of : ChangeType → Change → ℤ
gain_of upgrade c = sub_ℕ c.new_arc c.old_arc
gain_of downgrade c = pos 0 -ℤ sub_ℕ c.old_arc c.new_arc
gain_of rate_revision c = pos 0
gain_of disconnection c = if is_some c.account_applied_at then pos 0 -ℤ pos c.old_arc else pos 0

-- What a change adds to the ARC: a disconnection counts once it is applied, a rate revision never.
unfoldable pub gain : Change → ℤ
gain c = gain_of c.change_type c

-- What the buckets add to the ARC.
unfoldable pub net : Buckets → ℤ
net b = b.upgrades_arc_added -ℤ b.downgrades_arc_reduced -ℤ pos b.terminations_arc_lost

net-count_type :
    (t : ChangeType) (c : Change) (b : Buckets) → net (count_type t c b) ≡ net b +ℤ gain_of t c
unfolding net
net-count_type upgrade c b = omega int_laws
net-count_type downgrade c b = omega int_laws
net-count_type rate_revision c b = omega int_laws
net-count_type disconnection c b = elim (Bool-cases (is_some c.account_applied_at)) [
  | inl e ↦ rw e (omega int_laws)
  | inr e ↦ rw e (omega int_laws)
]

pub net-tally : (cs : List Change) (b : Buckets) → net (tally cs b) ≡ net b +ℤ sum_ℤ gain cs
unfolding tally gain
net-tally [] b = omega int_laws
net-tally (c ∷ cs) b =
    rw (net-tally cs (count_type c.change_type c b), net-count_type c.change_type c b)
      (omega int_laws)

-- Accounts of different ids.
abbrev pub IsDistinct : List Account → Type 0
IsDistinct [] = Unit
IsDistinct (a ∷ more) = (includes a.id (map (λ x. x.id) more) ≡ false) × IsDistinct more

-- The changes of an account.
abbrev pub changes_of : Account → List Change → List Change
changes_of a cs = select (λ c. c.account_id == a.id) cs

-- What the changes of an account add to its ARC.
unfoldable pub gains : List Change → Account → ℤ
gains cs a = sum_ℤ gain (changes_of a cs)

share : Change → Account → ℤ
share c a = if c.account_id == a.id then gain c else pos 0

share-none :
    (c : Change) (accounts : List Account)
    → is_of accounts c ≡ false
    → sum_ℤ (share c) accounts ≡ pos 0
unfolding share
share-none c [] h = refl
share-none c (a ∷ more) h =
    let r = share-none c more (ground arith) in
    let apart : (c.account_id == a.id) ≡ false = ground arith in rw (r, apart) (omega int_laws)

share-once :
    (c : Change) (accounts : List Account)
    → IsDistinct accounts
    → is_of accounts c ≡ true
    → sum_ℤ (share c) accounts ≡ gain c
unfolding share
share-once c [] d h = cc
share-once c (a ∷ more) (apart, d) h = elim (Bool-cases (c.account_id == a.id)) [
  | inl same ↦
      let r : sum_ℤ (share c) more ≡ pos 0 = share-none c more (ground arith) in
      rw (r, same) (omega int_laws)
  | inr other ↦
      let r : sum_ℤ (share c) more ≡ gain c = share-once c more d (ground arith) in
      rw (r, other) (omega int_laws)
]

gains-share :
    (c : Change) (cs : List Change) (accounts : List Account)
    → sum_ℤ (gains (c ∷ cs)) accounts ≡ sum_ℤ (share c) accounts +ℤ sum_ℤ (gains cs) accounts
unfolding gains share
gains-share c cs [] = omega int_laws
gains-share c cs (a ∷ more) = rw (gains-share c cs more) (elim (Bool-cases (c.account_id == a.id)) [
  | inl same ↦ rw same (omega int_laws)
  | inr other ↦ rw other (omega int_laws)
])

gains-empty : (accounts : List Account) → sum_ℤ (gains []) accounts ≡ pos 0
unfolding gains
gains-empty [] = refl
gains-empty (a ∷ more) = rw (gains-empty more) (omega int_laws)

-- Each change belongs to one account, so that the sum over the changes is that over the accounts.
pub sum-gains :
    (accounts : List Account) (cs : List Change)
    → IsDistinct accounts
    → All (λ c. is_of accounts c ≡ true) cs
    → sum_ℤ (gains cs) accounts ≡ sum_ℤ gain cs
sum-gains accounts [] d h = gains-empty accounts
sum-gains accounts (c ∷ cs) d (h, hs) =
    gains-share c cs accounts ∙ rw (share-once c accounts d h, sum-gains accounts cs d hs) refl
