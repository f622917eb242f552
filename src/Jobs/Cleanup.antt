-- ===== src/Jobs/Cleanup.antt =====
-- What the clean-up of expired shares spares.
use i_transfer.Base.{
  String, true, false, ◌≡◌, refl, ap, ◌∙◌, ◌==◌, some, List, [], ◌∷◌, inl, inr, arith, Bool-cases,
  Option-cases, All, HasDistinctKeys, IsFree, find?, find?-delete_where, select, eq_iff,
}
use i_transfer.Env.{Env}
use i_transfer.Storage.{
  delete_all_files, delete_all_local_files, delete_all_files_with, assert_share_is_not_locked,
  remove_directory,
}
use i_transfer.ReverseShare.{delete_shares}
use i_transfer.Jobs.{is_overdue, delete_expired_shares}
use i_transfer.World.{resume-state, ◌>>◌, World, Share, find_share, delete_share}

delete_all_files_shares :
    (env : Env) (id : String) (w : World) → (delete_all_files env id w).1.shares ≡ w.shares
unfolding delete_all_files delete_all_local_files delete_all_files_with assert_share_is_not_locked
    remove_directory
delete_all_files_shares env id w = ground arith

delete_all_files-find_share :
    (env : Env) (id other : String) (w : World)
    → find_share (delete_all_files env id w).1 other ≡ find_share w other
unfolding find_share
delete_all_files-find_share env id other w =
    ap (find? (λ (s : Share). s.id == other)) (delete_all_files_shares env id w)

-- No row of the list is the share with this identifier.
abbrev IsOther : String → Share → Type 0
IsOther id s = (s.id == id) ≡ false

find_share-delete_share :
    (w : World) (id other : String)
    → (other == id) ≡ false
    → find_share (delete_share other w).1 id ≡ find_share w id
unfolding delete_share find_share
find_share-delete_share w id other differs = elim (Option-cases (find_share w other)) [
  | inl missing ↦ ground arith
  | inr (s, found) ↦ ground (
    arith,
    find?-delete_where (λ (s : Share). s.id == id) (λ (s : Share). s.id == other) w.shares
        (λ s hit. other_key s.id id other hit differs),
  )
]
  where
    other_key :
        (k id other : String) → (k == id) ≡ true → (other == id) ≡ false → (k == other) ≡ false
    other_key k id other hit differs = ground (arith, eq_iff k id, eq_iff k other, eq_iff other id)

delete_shares-spares :
    (env : Env) (id : String) (shares : List Share) (w : World)
    → All (IsOther id) shares
    → find_share (delete_shares env shares w).1 id ≡ find_share w id
unfolding delete_shares
delete_shares-spares env id [] w others = refl
delete_shares-spares env id (s ∷ shares) w (other, others) =
    let IsSame : World → Type 0 = λ w'. find_share w' id ≡ find_share w id in
    resume-state IsSame ((delete_all_files env s.id >> delete_share s.id) w) _
      (resume-state IsSame (delete_all_files env s.id w) _
        (delete_all_files-find_share env s.id id w)
        (λ _ w1 same. find_share-delete_share w1 id s.id other ∙ same))
      (λ _ w1 same. delete_shares-spares env id shares w1 others ∙ same)

free-others :
    (env : Env) (id : String) (shares : List Share)
    → IsFree (λ s. s.id) id shares
    → All (IsOther id) (select (is_overdue env) shares)
unfolding select
free-others env id [] free = tt
free-others env id (x ∷ shares) (other, free) = elim (Bool-cases (is_overdue env x)) [
  | inl overdue ↦ rw overdue (other, free-others env id shares free)
  | inr kept ↦ rw kept (free-others env id shares free)
]

select-others :
    (env : Env) (id : String) (shares : List Share) {s : Share}
    → HasDistinctKeys (λ s. s.id) shares
    → find? (λ s. s.id == id) shares ≡ some s
    → is_overdue env s ≡ false
    → All (IsOther id) (select (is_overdue env) shares)
unfolding select find?
select-others env id [] distinct found due = tt
select-others env id (x ∷ shares) {s} (free, distinct) found due = elim (Bool-cases (x.id == id)) [
  | inl hit ↦
      let same : x ≡ s = ground arith in
      let free' : IsFree (λ s. s.id) id shares = rw (← (eq_iff x.id id).0 hit) free in
      rw (same, due) (free-others env id shares free')
  | inr miss ↦
      let later : find? (λ (s : Share). s.id == id) shares ≡ some s = ground arith in
      let rest = select-others env id shares {s = s} distinct later due in
      elim (Bool-cases (is_overdue env x)) [
        | inl overdue ↦ rw overdue (miss, rest)
        | inr kept ↦ rw kept rest
      ]
]

-- The hourly clean-up spares a share that has not expired or never expires, whatever happens to the
-- others.
pub delete_expired_shares-spares :
    (env : Env) (id : String) (w : World) {s : Share}
    → HasDistinctKeys (λ s. s.id) w.shares
    → find_share w id ≡ some s
    → is_overdue env s ≡ false
    → find_share (delete_expired_shares env w).1 id ≡ some s
unfolding delete_expired_shares find_share
delete_expired_shares-spares env id w {s} distinct found due =
    delete_shares-spares env id (select (is_overdue env) w.shares) w
      (select-others env id w.shares {s = s} distinct found due)
    ∙ found
