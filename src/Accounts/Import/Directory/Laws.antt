-- ===== src/Accounts/Import/Directory/Laws.antt =====
-- Whom a row of the sheet is given to (src/modules/accounts/import/import.service.ts).
use text.Mathlib.Text.{◌==◌ as str_eq}
use text.Mathlib.TextEquality.{eq_iff}
use isp_sam_backend.Prelude.{
  ℕ, ◌≡◌, String, Bool, false, Option, none, some, List, [], ◌∷◌, length, map, select,
  if◌then◌else◌, arith, refl, sym, Bool-cases, Option-cases, List-cases, ap, ◌∙◌, ◌⊎◌, inl, inr,
}
use isp_sam_backend.Text.{trimmed}
use isp_sam_backend.Db.{User}
use isp_sam_backend.Accounts.Import.Sheet.{CanonicalRow}
use isp_sam_backend.Accounts.Import.Directory.{
  SamUser, NamedSam, SamDirectory, sam_of, entered, enter_user, enter_users, load_sam_directory,
  name_key, email_key, has_space, has_first_name, find_by_first_name, by_first_name, match_email,
  match_name, lower_trimmed, resolve_sam, SamMatch, owned_by,
}

-- One of the users.
abbrev pub IsAmong : User → List User → Type 0
IsAmong u [] = ⊥
IsAmong u (v ∷ us) = (v ≡ u) ⊎ IsAmong u us

module _ (lower : String → String) where
  -- How many users have a full name.
  abbrev pub named : String → List User → ℕ
  named key us = length (select (λ u. str_eq (name_key lower u) key) us)

  -- What `byName` and `byEmail` hold under one key.
  abbrev name_entry : String → List User → Option NamedSam → Option NamedSam
  name_entry key [] n = n
  name_entry key (u ∷ us) n =
      name_entry key us (if str_eq (name_key lower u) key then some (entered u n) else n)

  abbrev email_entry : String → List User → Option SamUser → Option SamUser
  email_entry key [] n = n
  email_entry key (u ∷ us) n =
      email_entry key us (if str_eq (email_key lower u) key then some (sam_of u) else n)

  enter_users-by_name :
      (key : String) (us : List User) (d : SamDirectory)
      → (enter_users lower us d).by_name key ≡ name_entry key us (d.by_name key)
  unfolding enter_users
  enter_users-by_name key [] d = refl
  enter_users-by_name key (u ∷ us) d = enter_users-by_name key us (enter_user lower u d)

  enter_users-by_email :
      (key : String) (us : List User) (d : SamDirectory)
      → (enter_users lower us d).by_email key ≡ email_entry key us (d.by_email key)
  unfolding enter_users
  enter_users-by_email key [] d = refl
  enter_users-by_email key (u ∷ us) d = enter_users-by_email key us (enter_user lower u d)

  enter_users-all_users :
      (us : List User) (d : SamDirectory) → (enter_users lower us d).all_users ≡ d.all_users
  unfolding enter_users
  enter_users-all_users [] d = refl
  enter_users-all_users (u ∷ us) d = enter_users-all_users us (enter_user lower u d)

  -- An entry under a name stays with its first user, and is unambiguous only while no other comes.
  name_entry-some :
      (key : String) (us : List User) (n m : NamedSam)
      → name_entry key us (some n) ≡ some m
      → (m.id ≡ n.id)
        × (m.name ≡ n.name)
        × (m.ambiguous ≡ false → (n.ambiguous ≡ false) × (named key us ≡ 0))
  name_entry-some key [] n m e = ground arith
  name_entry-some key (u ∷ us) n m e = elim (Bool-cases (str_eq (name_key lower u) key)) [
    | inl same ↦
        let h = name_entry-some key us (entered u (some n)) m (ground arith) in ground arith
    | inr other ↦ let h = name_entry-some key us n m (ground arith) in ground arith
  ]

  name_entry-none :
      (key : String) (us : List User) (m : NamedSam)
      → name_entry key us none ≡ some m
      → m.ambiguous ≡ false
      → (u : User) × IsAmong u us
        × (u.id ≡ m.id)
        × (u.name ≡ m.name)
        × (name_key lower u ≡ key)
        × (named key us ≡ 1)
  name_entry-none key [] m e a = absurd (ground arith)
  name_entry-none key (u ∷ us) m e a = elim (Bool-cases (str_eq (name_key lower u) key)) [
    | inl same ↦
        let h = name_entry-some key us (entered u none) m (ground arith) in
        (
          u,
          inl refl,
          ground arith,
          ground arith,
          (eq_iff (name_key lower u) key).0 same,
          ground arith,
        )
    | inr other ↦
        let (v, i, j, n, k, c) = name_entry-none key us m (ground arith) a in
        (v, inr i, j, n, k, ground arith)
  ]

  -- Where there is no entry, nobody has the name.
  name_entry-absent :
      (key : String) (us : List User) (n : Option NamedSam)
      → name_entry key us n ≡ none
      → (n ≡ none) × (named key us ≡ 0)
  name_entry-absent key [] n e = (e, refl)
  name_entry-absent key (u ∷ us) n e = elim (Bool-cases (str_eq (name_key lower u) key)) [
    | inl same ↦
        let h = name_entry-absent key us (some (entered u n)) (ground arith) in ground arith
    | inr other ↦ let h = name_entry-absent key us n (ground arith) in ground arith
  ]

  email_entry-some :
      (key : String) (us : List User) (n : Option SamUser) (m : SamUser)
      → email_entry key us n ≡ some m
      → (n ≡ some m) ⊎ ((u : User) × IsAmong u us × (sam_of u ≡ m) × (email_key lower u ≡ key))
  email_entry-some key [] n m e = inl e
  email_entry-some key (u ∷ us) n m e = elim (Bool-cases (str_eq (email_key lower u) key)) [
    | inl same ↦ elim (email_entry-some key us (some (sam_of u)) m (ground arith)) [
      | inl q ↦ inr (u, inl refl, ground arith, (eq_iff (email_key lower u) key).0 same)
      | inr (v, i, q, k) ↦ inr (v, inr i, q, k)
    ]
    | inr other ↦ elim (email_entry-some key us n m (ground arith)) [
      | inl q ↦ inl q
      | inr (v, i, q, k) ↦ inr (v, inr i, q, k)
    ]
  ]

  -- A user who is found is one of them.
  select-IsAmong :
      (p : SamUser → Bool) (us : List User) (x : SamUser) (xs : List SamUser)
      → select p (map sam_of us) ≡ x ∷ xs
      → (u : User) × IsAmong u us × (sam_of u ≡ x)
  select-IsAmong p [] x xs e = absurd (ground arith)
  select-IsAmong p (u ∷ us) x xs e = elim (Bool-cases (p (sam_of u))) [
    | inl t ↦ (u, inl refl, ground arith)
    | inr t ↦ let (v, i, q) = select-IsAmong p us x xs (ground arith) in (v, inr i, q)
  ]

  -- The three ways to name an owner: by the email; by a full name that one user has; or by one word
  -- that is nobody's full name, and the first name of one user.
  pub data IsMeant (us : List User) (c : CanonicalRow) (u : User) : Type 0 where
    by_email : lower_trimmed lower c.sam_email ≡ some (email_key lower u) → IsMeant us c u
    by_full_name :
        (name : String)
        → lower_trimmed lower c.sam_email ≡ none
        → trimmed c.sam_name ≡ some name
        → name_key lower u ≡ lower name
        → named (lower name) us ≡ 1
        → IsMeant us c u
    by_one_word :
        (name : String)
        → lower_trimmed lower c.sam_email ≡ none
        → trimmed c.sam_name ≡ some name
        → has_space name ≡ false
        → named (lower name) us ≡ 0
        → select (has_first_name lower (lower name)) (map sam_of us) ≡ sam_of u ∷ []
        → IsMeant us c u

  -- What a match says: no owner, or an owner who is one of the users.
  abbrev Matches : List User → (User → Type 0) → SamMatch → Type 0
  Matches us P m =
      ((m.sam_owner_id ≡ none) × (m.sam_owner_name ≡ none))
      ⊎ ((u : User) × IsAmong u us × (m ≡ owned_by u.id u.name) × P u)

  abbrev loaded : List User → SamDirectory
  loaded us = load_sam_directory lower us

  match_email-Matches :
      (us : List User) (email : String)
      → Matches us (λ u. email_key lower u ≡ email) (match_email lower (loaded us) email)
  unfolding load_sam_directory
  match_email-Matches us email = elim (Option-cases ((loaded us).by_email email)) [
    | inl e ↦ inl (ground arith, ground arith)
    | inr (x, e) ↦
        let q =
          enter_users-by_email email us
            (record { by_email = λ _. none; by_name = λ _. none; all_users = map sam_of us }) in
        elim (email_entry-some email us none x (ground arith)) [
          | inl n ↦ absurd (ground arith)
          | inr (u, i, same, k) ↦ inr (u, i, ground arith, k)
        ]
  ]

  by_first_name-Matches :
      (us : List User) (p : SamUser → Bool)
      → Matches us
          (λ u. select p (map sam_of us) ≡ sam_of u ∷ [])
          (by_first_name (select p (map sam_of us)))
  by_first_name-Matches us p = elim (List-cases (select p (map sam_of us))) [
    | inl e ↦ inl (ground arith, ground arith)
    | inr (x, xs, e) ↦ elim (List-cases xs) [
      | inr (y, ys, f) ↦ inl (ground arith, ground arith)
      | inl f ↦
          let (u, i, same) = select-IsAmong p us x xs e in inr (u, i, ground arith, ground arith)
    ]
  ]

  match_name-Matches :
      (us : List User) (c : CanonicalRow) (name : String)
      → lower_trimmed lower c.sam_email ≡ none
      → trimmed c.sam_name ≡ some name
      → Matches us (IsMeant us c) (match_name lower (loaded us) name)
  unfolding load_sam_directory find_by_first_name
  match_name-Matches us c name g t =
      let start : SamDirectory = record {
        by_email = λ _. none;
        by_name = λ _. none;
        all_users = map sam_of us;
      } in
      let q = enter_users-by_name (lower name) us start in
      let a = enter_users-all_users us start in
      elim (Option-cases ((loaded us).by_name (lower name))) [
        | inr (n, e) ↦ elim (Bool-cases n.ambiguous) [
          | inl b ↦ inl (ground arith, ground arith)
          | inr b ↦
              let (u, i, j, k, l, m) = name_entry-none (lower name) us n (ground arith) b in
              inr (u, i, ground arith, by_full_name name g t l m)
        ]
        | inl e ↦ elim (Bool-cases (has_space name)) [
          | inl b ↦ inl (ground arith, ground arith)
          | inr b ↦
              let z = name_entry-absent (lower name) us none (ground arith) in
              elim (by_first_name-Matches us (has_first_name lower (lower name))) [
                | inl none_found ↦ inl (ground arith, ground arith)
                | inr (u, i, found, one) ↦ inr (u, i, ground arith, by_one_word name g t b z.1 one)
              ]
        ]
      ]

  -- A row gets an owner, and then without a warning, only if the owner is one of the users and is
  -- the one who is meant: the email is that user's, or there is no email and either the name is the
  -- full name of that user alone, or it is one word, nobody's full name and the first name of that
  -- user alone. Otherwise the row has neither an owner nor an owner's name.
  pub resolve_sam_lem :
      (us : List User) (c : CanonicalRow)
      → let m = resolve_sam lower c (load_sam_directory lower us) in
        ((m.sam_owner_id ≡ none) × (m.sam_owner_name ≡ none))
        ⊎ ((u : User) × IsAmong u us × (m ≡ owned_by u.id u.name) × IsMeant us c u)
  unfolding resolve_sam
  resolve_sam_lem us c = elim (Option-cases (lower_trimmed lower c.sam_email)) [
    | inr (email, g) ↦ elim (match_email-Matches us email) [
      | inl nobody ↦ inl (ground arith, ground arith)
      | inr (u, i, m, k) ↦ inr (u, i, ground arith, by_email (g ∙ ap (λ x. some x) (sym k)))
    ]
    | inl g ↦ elim (Option-cases (trimmed c.sam_name)) [
      | inl t ↦ inl (ground arith, ground arith)
      | inr (name, t) ↦ elim (match_name-Matches us c name g t) [
        | inl nobody ↦ inl (ground arith, ground arith)
        | inr (u, i, m, k) ↦ inr (u, i, ground arith, k)
      ]
    ]
  ]
