-- ===== src/User/Admins.antt =====
-- The administrators after an update or a deletion of a user.
use i_transfer.Base.{
  ℕ, String, Bool, true, false, ◌&&◌, ◌≤◌, ◌≡◌, refl, sym, ◌∙◌, ◌==◌, Option, some, List, [], ◌∷◌,
  inl, inr, arith, Bool-cases, eqb, count, select, update_where, delete_where, same, if◌then◌else◌,
  HasDistinctKeys, count-update_where, count-delete_where, find?,
}
use mathlib.Core.Path.{transport}
use i_transfer.Env.{Env}
use i_transfer.Storage.{
  delete_all_files, delete_all_local_files, assert_share_is_not_locked, remove_directory,
  delete_all_files_with,
}
use i_transfer.World.{
  Ends, Ends-resume, Ends-throw_if, Ends-or_throw, Ends-reads, Ends-weaken, Ends-of, Ends-state,
  World, User, Share, ok, find_user, update_user, throw_if, or_throw, bad_request,
}
use i_transfer.User.{
  UpdateUser, normalize_storage_quota, is_active_admin, active_admin_count, removes_active_admin,
  apply_update, is_taken, revoke_sessions, lift, update, delete, delete_user, delete_files_of,
}

-- An update that the guard lets pass takes no active administrator away.
still_active :
    (env : Env) (dto : UpdateUser) (quota : Option ℕ) (u : User)
    → removes_active_admin u dto ≡ false
    → is_active_admin u ≡ true
    → is_active_admin (apply_update env dto quota u) ≡ true
unfolding removes_active_admin apply_update
still_active env dto quota u kept active = ground arith

updated_count :
    (env : Env) (id : String) (dto : UpdateUser) (quota : Option ℕ) (u : User) (users : List User)
    → HasDistinctKeys (λ u. u.id) users
    → find? (λ u. u.id == id) users ≡ some u
    → 1 ≤ count is_active_admin users
    → removes_active_admin u dto && eqb (count is_active_admin users) 1 ≡ false
    → 1 ≤ count is_active_admin (update_where (λ u. u.id == id) (apply_update env dto quota) users)
updated_count env id dto quota u users distinct found one guard =
    let counted =
      count-update_where (λ (u : User). u.id) is_active_admin id (apply_update env dto quota) users
        distinct found in
    elim (Bool-cases (removes_active_admin u dto)) [
      | inl removes ↦ ground (arith, counted)
      | inr keeps ↦ elim (Bool-cases (is_active_admin u)) [
        | inl active ↦ ground (arith, counted, still_active env dto quota u keeps active)
        | inr idle ↦ ground (arith, counted)
      ]
    ]

-- The write of a row, and the state after it.
update_user-Ends :
    (P : World → Type 0) (id : String) (f : User → User) (w : World) {u : User}
    → find_user w id ≡ some u
    → P (record w { users = update_where (λ u. u.id == id) f w.users })
    → Ends (λ _ w'. P w') P (update_user id f w)
unfolding update_user
update_user-Ends P id f w {u} found written =
    let row : update_user id f w
        ≡ (ok (f u), record w { users = update_where (λ u. u.id == id) f w.users }) =
      rw (found, update_user) in
    transport (λ i. Ends {A = User} (λ _ w'. P w') P (sym row i)) written

revoked_count :
    (b : Bool) (id : String) (w : World)
    → 1 ≤ active_admin_count w
    → 1 ≤ active_admin_count (if b then revoke_sessions id w else w)
unfolding revoke_sessions
revoked_count true id w one = one
revoked_count false id w one = one

update-Ends :
    (env : Env) (id : String) (dto : UpdateUser) (w : World)
    → HasDistinctKeys (λ u. u.id) w.users
    → 1 ≤ active_admin_count w
    → Ends
        (λ _ w'. 1 ≤ active_admin_count w')
        (λ w'. 1 ≤ active_admin_count w')
        (update env id dto w)
unfolding update lift find_user
update-Ends env id dto w distinct one =
    let HasAdmin : World → Type 0 = λ w'. 1 ≤ active_admin_count w' in
    Ends-resume _ _ (lift (normalize_storage_quota dto.storage_quota_bytes) w) _ (
      Ends-reads _ _ (lift (normalize_storage_quota dto.storage_quota_bytes) w) w refl one
        λ quota _. Ends-resume _ _ (or_throw (bad_request "User not found") (find_user w id) w) _ (
          Ends-or_throw _ _ _ (find_user w id) w one λ u found.
            let last = removes_active_admin u dto && eqb (active_admin_count w) 1 in
            Ends-resume _ _ (throw_if last _ w) _ (
              Ends-throw_if _ _ last _ w one λ guard.
                let by_name = is_taken w.users id (λ (u : User). u.username) dto.username in
                Ends-resume _ _ (throw_if by_name _ w) _ (
                  Ends-throw_if _ _ by_name _ w one λ _.
                    let by_email = is_taken w.users id (λ (u : User). u.email) dto.email in
                    Ends-resume _ _ (throw_if by_email _ w) _ (
                      Ends-throw_if _ _ by_email _ w one λ _.
                        Ends-resume _ _ (update_user id (apply_update env dto quota) w) _ (
                          Ends-weaken _ _ _ _ (update_user id (apply_update env dto quota) w)
                            (update_user-Ends HasAdmin id (apply_update env dto quota) w found
                              (updated_count env id dto quota u w.users distinct found one guard))
                            (λ updated w' some_left. revoked_count _ id w' some_left)
                            (λ w' some_left. some_left)))))))

delete_all_files_users :
    (env : Env) (id : String) (w : World) → (delete_all_files env id w).1.users ≡ w.users
unfolding delete_all_files delete_all_local_files delete_all_files_with assert_share_is_not_locked
    remove_directory
delete_all_files_users env id w = ground arith

delete_files_of_users :
    (env : Env) (shares : List Share) (w : World) → (delete_files_of env shares w).1.users ≡ w.users
unfolding delete_files_of
delete_files_of_users env [] w = refl
delete_files_of_users env (s ∷ shares) w =
    delete_files_of_users env shares (delete_all_files env s.id w).1
    ∙ delete_all_files_users env s.id w

deleted_count :
    (id : String) (u : User) (users : List User)
    → HasDistinctKeys (λ u. u.id) users
    → find? (λ u. u.id == id) users ≡ some u
    → 1 ≤ count is_active_admin users
    → is_active_admin u && eqb (count is_active_admin users) 1 ≡ false
    → 1 ≤ count is_active_admin (delete_where (λ u. u.id == id) users)
deleted_count id u users distinct found one guard =
    let counted = count-delete_where (λ (u : User). u.id) is_active_admin id users distinct found in
    ground (arith, counted)

delete-Ends :
    (env : Env) (id : String) (w : World)
    → HasDistinctKeys (λ u. u.id) w.users
    → 1 ≤ active_admin_count w
    → Ends (λ _ w'. 1 ≤ active_admin_count w') (λ w'. 1 ≤ active_admin_count w') (delete env id w)
unfolding delete find_user delete_user revoke_sessions
delete-Ends env id w distinct one =
    Ends-resume _ _ (or_throw (bad_request "User not found") (find_user w id) w) _ (
      Ends-or_throw _ _ _ (find_user w id) w one λ u found.
        let last = is_active_admin u && eqb (active_admin_count w) 1 in
        Ends-resume _ _ (throw_if last _ w) _ (
          Ends-throw_if _ _ last _ w one λ guard.
            let shares = select (λ s. same s.creator_id (some id)) w.shares in
            Ends-resume _ _ (delete_files_of env shares w) _ (
              Ends-weaken _ _ _ _ (delete_files_of env shares w)
                (Ends-of (λ w'. w'.users ≡ w.users) (delete_files_of env shares w)
                  (delete_files_of_users env shares w))
                (λ _ w' same_users.
                  transport
                    (λ i.
                      1
                      ≤ count is_active_admin
                          (delete_where (λ (u : User). u.id == id) (sym same_users i)))
                    (deleted_count id u w.users distinct found one guard))
                (λ w' same_users.
                  transport (λ i. 1 ≤ count is_active_admin (sym same_users i)) one))))

-- Whatever an update of a user asks for, and whether it is refused or not, an active administrator
-- is left where there was one.
pub update-HasActiveAdmin :
    (env : Env) (id : String) (dto : UpdateUser) (w : World)
    → HasDistinctKeys (λ u. u.id) w.users
    → 1 ≤ active_admin_count w
    → 1 ≤ active_admin_count (update env id dto w).1
update-HasActiveAdmin env id dto w distinct one =
    Ends-state (λ w'. 1 ≤ active_admin_count w') (update env id dto w)
      (update-Ends env id dto w distinct one)

-- Whatever user is deleted, and whether it is refused, fails half-way or succeeds, an active
-- administrator is left where there was one.
pub delete-HasActiveAdmin :
    (env : Env) (id : String) (w : World)
    → HasDistinctKeys (λ u. u.id) w.users
    → 1 ≤ active_admin_count w
    → 1 ≤ active_admin_count (delete env id w).1
delete-HasActiveAdmin env id w distinct one =
    Ends-state (λ w'. 1 ≤ active_admin_count w') (delete env id w)
      (delete-Ends env id w distinct one)
