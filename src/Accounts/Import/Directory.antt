-- ===== src/Accounts/Import/Directory.antt =====
-- `loadSamDirectory`, `findByFirstName` and `resolveSam` of
-- src/modules/accounts/import/import.service.ts. `lower` is `toLowerCase`.
pub mod Laws
use Prim.Native.Char.{code}
use text.Mathlib.Text.{◌==◌ as str_eq}
use isp_sam_backend.Prelude.{
  ℕ, String, Bool, true, false, ◌||◌, Option, none, some, List, [], ◌∷◌, map, select, if◌then◌else◌,
}
use isp_sam_backend.Text.{is_space, trim, trimmed, bind_truthy}
use isp_sam_backend.Db.{User}
use isp_sam_backend.Accounts.Import.Sheet.{CanonicalRow}

pub record SamUser : Type 0 where
  pub id : ℕ
  pub name : String

-- An entry of `byName`.
pub record NamedSam : Type 0 where
  pub id : ℕ
  pub name : String
  pub ambiguous : Bool

pub record SamDirectory : Type 0 where
  pub by_email : String → Option SamUser
  pub by_name : String → Option NamedSam
  pub all_users : List SamUser

-- The text up to the first white space.
unfoldable pub first_word : String → String
unfolding is_space
first_word String.[] = String.[]
first_word (String.◌∷◌ c s) =
    let rest = first_word s in if is_space (code c) then String.[] else String.◌∷◌ c rest

unfoldable pub has_space : String → Bool
unfolding is_space
has_space String.[] = false
has_space (String.◌∷◌ c s) = is_space (code c) || has_space s

abbrev pub sam_of : User → SamUser
sam_of u = record { id = u.id; name = u.name }

-- What an entry of `byName` becomes when a user has its key.
abbrev pub entered : User → Option NamedSam → NamedSam
entered u none = record { id = u.id; name = u.name; ambiguous = false }
entered u (some n) = record n { ambiguous = true }

-- Why a row is imported without an owner.
pub data SamWarning : Type 0 where
  email_unmatched name_shared name_unmatched : SamWarning
  name_ambiguous : List String → SamWarning

pub record SamMatch : Type 0 where
  pub sam_owner_id : Option ℕ
  pub sam_owner_name : Option String
  pub warning : Option SamWarning

abbrev pub owned_by : ℕ → String → SamMatch
owned_by k name = record { sam_owner_id = some k; sam_owner_name = some name; warning = none }

abbrev pub unowned : Option SamWarning → SamMatch
unowned w = record { sam_owner_id = none; sam_owner_name = none; warning = w }

abbrev pub by_first_name : List SamUser → SamMatch
by_first_name [] = unowned (some name_unmatched)
by_first_name (u ∷ []) = owned_by u.id u.name
by_first_name (u ∷ v ∷ us) = unowned (some (name_ambiguous (map (λ x. x.name) (u ∷ v ∷ us))))

module _ (lower : String → String) where
  abbrev pub email_key : User → String
  email_key u = lower u.email

  abbrev pub name_key : User → String
  name_key u = lower (trim u.name)

  abbrev pub enter_user : User → SamDirectory → SamDirectory
  enter_user u d = record {
    by_email = λ k. if str_eq (email_key u) k then some (sam_of u) else d.by_email k;
    by_name = λ k. if str_eq (name_key u) k then some (entered u (d.by_name k)) else d.by_name k;
    all_users = d.all_users;
  }

  -- The loop over the users.
  unfoldable pub enter_users : List User → SamDirectory → SamDirectory
  enter_users [] d = d
  enter_users (u ∷ us) d = enter_users us (enter_user u d)

  unfoldable pub load_sam_directory : List User → SamDirectory
  unfolding enter_users
  load_sam_directory us =
      enter_users us
        (record { by_email = λ _. none; by_name = λ _. none; all_users = map sam_of us })

  abbrev pub has_first_name : String → SamUser → Bool
  has_first_name first u = str_eq (lower (first_word (trim u.name))) (lower first)

  unfoldable pub find_by_first_name : SamDirectory → String → List SamUser
  find_by_first_name d first = select (has_first_name first) d.all_users

  abbrev pub match_email : SamDirectory → String → SamMatch
  match_email d email = elim (d.by_email email) [
    | some u ↦ owned_by u.id u.name
    | none ↦ unowned (some email_unmatched)
  ]

  abbrev pub match_name : SamDirectory → String → SamMatch
  match_name d name = elim (d.by_name (lower name)) [
    | some n ↦ if n.ambiguous then unowned (some name_shared) else owned_by n.id n.name
    | none ↦
        if has_space name
        then unowned (some name_unmatched)
        else by_first_name (find_by_first_name d (lower name))
  ]

  abbrev pub lower_trimmed : Option String → Option String
  lower_trimmed none = none
  lower_trimmed (some t) = bind_truthy (some (lower (trim t)))

  unfoldable pub resolve_sam : CanonicalRow → SamDirectory → SamMatch
  unfolding find_by_first_name has_space
  resolve_sam c d = elim (lower_trimmed c.sam_email) [
    | some email ↦ match_email d email
    | none ↦ elim (trimmed c.sam_name) [ none ↦ unowned none | some name ↦ match_name d name ]
  ]
