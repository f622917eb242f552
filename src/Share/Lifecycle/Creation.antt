-- ===== src/Share/Lifecycle/Creation.antt =====
-- What `create` leaves behind.
use i_transfer.Base.{
  find?, ℕ, ◌≡◌, ◌≢◌, ◌⊎◌, ◌==◌, eq_iff, Bool-cases, refl, sym, String, false, Option-cases, Option,
  none, some, ◌∷◌, inl, inr, arith, eq_refl, is_some, IsFree, find?-IsFree, HasDistinctKeys,
  update_where, update_where-IsFree, if◌then◌else◌,
}
use mathlib.Core.Option
use mathlib.Core.Path.{subst, transport}
use i_transfer.Share.Expiration.{resolve_expiration_date}
use i_transfer.Env.{Env}
use i_transfer.Share.Lifecycle.{
  CreateShare, new_share, create, get_by_token, expiration_for, connect_to, directories_with,
}
use i_transfer.Share.Access.{get}
use i_transfer.World.{
  World, User, Share, ReverseShare, Outcome, ok, throws, bad_request, not_found, find_share,
  update_share, find_reverse_share_by_token, Ends, Outcome-cases,
}

-- The share that is stored: linked to the reverse share, if the request carries the token of one.
abbrev pub linked : Option ReverseShare → Share → Share
linked none s = s
linked (some r) s = record s { reverse_share_id = some r.id }

-- `create`, in one step.
abbrev pub stored :
    Env
    → CreateShare
    → Option User
    → Option ReverseShare
    → World
    → Outcome ℕ
    → Outcome Share × World
stored env dto user r w (throws e) = (throws e, w)
stored env dto user r w (ok t) =
    let s = new_share env dto user t in
    (
      ok s,
      record w {
        shares = linked r s ∷ w.shares;
        directories = directories_with env s w.directories;
      },
    )

connect_to-insert :
    (r : Option ReverseShare) (s : Share) (id : String) (w : World)
    → s.id ≡ id
    → IsFree (λ x. x.id) id w.shares
    → connect_to r id (record w { shares = s ∷ w.shares })
      ≡ (ok tt, record w { shares = linked r s ∷ w.shares })
unfolding connect_to update_share find_share find? update_where
connect_to-insert none s id w e free = refl
connect_to-insert (some r) s id w e free = ground (
  arith,
  e,
  eq_refl id,
  update_where-IsFree (λ x. x.id) id (λ (x : Share). record x { reverse_share_id = some r.id })
      w.shares free,
)

-- `create` in one step.
pub create_lem :
    (env : Env) (dto : CreateShare) (user : Option User) (token : Option String) (w : World)
    → create env dto user token w ≡ (
        if is_some (find_share w dto.id)
        then (throws (bad_request "Share id already in use"), w)
        else stored env dto user
            (get_by_token w token)
            w
            (expiration_for env dto (get_by_token w token)))
unfolding create new_share
create_lem env dto user token w = elim (Option-cases (find_share w dto.id)) [
  | inr (s, taken) ↦ ground arith
  | inl free ↦ elim (Outcome-cases (expiration_for env dto (get_by_token w token))) [
    | inr (e, refused) ↦ ground arith
    | inl (t, allowed) ↦ ground (
      arith,
      connect_to-insert (get_by_token w token) (new_share env dto user t) dto.id
          (record w { directories = directories_with env (new_share env dto user t) w.directories })
          refl (find?-IsFree (λ x. x.id) dto.id w.shares (unfold find_share in free)),
    )
  ]
]

linked-new_share :
    (env : Env) (dto : CreateShare) (user : Option User) (r : Option ReverseShare) (t : ℕ)
    → let s = linked r (new_share env dto user t) in (s.id ≡ dto.id) × (s.upload_locked ≡ false)
unfolding new_share
linked-new_share env dto user none t = (refl, refl)
linked-new_share env dto user (some r) t = (refl, refl)

-- The reverse share whose token the request carries.
abbrev pub IsCarried : World → Option String → Option ReverseShare → Type 0
IsCarried w none r = r ≡ none
IsCarried w (some t) r =
    ((t ≡ "") × (r ≡ none)) ⊎ ((t ≢ "") × (r ≡ find? (λ x. x.token == t) w.reverse_shares))

-- The date of the reverse share, or the one that is resolved.
abbrev pub IsDated : Env → CreateShare → Option ReverseShare → Share → Type 0
IsDated env dto none s = resolve_expiration_date env dto.expiration ≡ ok s.expiration
IsDated env dto (some r) s = s.expiration ≡ r.share_expiration

-- A share that was created; `s` is the answer.
pub record IsCreated (env : Env) (dto : CreateShare) (user : Option User) (token : Option String)
    (w : World) (s : Share) (w' : World) : Type 0 where
  pub was_free : find_share w dto.id ≡ none
  pub reverse_share : Option ReverseShare
  pub carried : IsCarried w token reverse_share
  pub dated : IsDated env dto reverse_share s
  pub id_is : s.id ≡ dto.id
  pub owner_is : s.creator_id ≡ Option.map (λ (u : User). u.id) user
  pub unlocked : s.upload_locked ≡ false
  pub unseen : s.views ≡ 0
  pub recipients_are : s.recipients ≡ dto.recipients
  pub written : w' ≡ record w {
    shares = linked reverse_share s ∷ w.shares;
    directories = directories_with env s w.directories;
  }

get_by_token-IsCarried :
    (w : World) (token : Option String) → IsCarried w token (get_by_token w token)
unfolding get_by_token find_reverse_share_by_token
get_by_token-IsCarried w none = refl
get_by_token-IsCarried w (some t) = elim (Bool-cases (t == "")) [
  | inl empty ↦ inl ((eq_iff t "").0 empty, rw (empty, get_by_token) refl)
  | inr given ↦ inr (
    (λ same. let same' = rw same at given in absurd (ground arith)),
    rw (given, get_by_token) refl,
  )
]

stored-Ends :
    (env : Env) (dto : CreateShare) (user : Option User) (token : Option String)
    (r : Option ReverseShare) (w : World)
    → find_share w dto.id ≡ none
    → IsCarried w token r
    → Ends
        (IsCreated env dto user token w)
        (λ w'. w' ≡ w)
        (stored env dto user r w (expiration_for env dto r))
unfolding new_share expiration_for
stored-Ends env dto user token (some r) w free carried = record {
  was_free = free;
  reverse_share = some r;
  carried = carried;
  dated = refl;
  id_is = refl;
  owner_is = owner user;
  unlocked = refl;
  unseen = refl;
  recipients_are = refl;
  written = refl;
}
  where
    owner :
        (user : Option User)
        → (elim user [ none ↦ none | some u ↦ some u.id ]) ≡ Option.map (λ (u : User). u.id) user
    owner none = refl
    owner (some u) = refl
stored-Ends env dto user token none w free carried =
    go (resolve_expiration_date env dto.expiration) refl
  where
    owner :
        (user : Option User)
        → (elim user [ none ↦ none | some u ↦ some u.id ]) ≡ Option.map (λ (u : User). u.id) user
    owner none = refl
    owner (some u) = refl

    go :
        (o : Outcome ℕ)
        → resolve_expiration_date env dto.expiration ≡ o
        → Ends (IsCreated env dto user token w) (λ w'. w' ≡ w) (stored env dto user none w o)
    go (throws e) same = refl
    go (ok t) same = record {
      was_free = free;
      reverse_share = none;
      carried = carried;
      dated = same;
      id_is = refl;
      owner_is = owner user;
      unlocked = refl;
      unseen = refl;
      recipients_are = refl;
      written = refl;
    }

-- Creating a share either changes nothing, and then throws, or adds one share with the request's id,
-- which was not in use, and recipients, owned by the user, open and not yet viewed, and for a local share
-- its directory, and changes no other row. Where the request carries the token of a reverse share, the
-- share is linked to it and has its date; otherwise it has the date that is resolved from the request.
pub create-IsCreated :
    (env : Env) (dto : CreateShare) (user : Option User) (token : Option String) (w : World)
    → Ends (IsCreated env dto user token w) (λ w'. w' ≡ w) (create env dto user token w)
create-IsCreated env dto user token w =
    transport
      (λ i.
        Ends (IsCreated env dto user token w) (λ w'. w' ≡ w)
          (sym (create_lem env dto user token w) i))
      (elim (Option-cases (find_share w dto.id)) [
        | inr (s, taken) ↦ rw taken refl
        | inl free ↦ rw free (
            stored-Ends env dto user token (get_by_token w token) w free
              (get_by_token-IsCarried w token))
      ])

-- Creating a share keeps the ids of the shares distinct, whether it succeeds or fails.
pub create-HasDistinctKeys :
    (env : Env) (dto : CreateShare) (user : Option User) (token : Option String) (w : World)
    → HasDistinctKeys (λ (s : Share). s.id) w.shares
    → HasDistinctKeys (λ (s : Share). s.id) (create env dto user token w).1.shares
unfolding find_share
create-HasDistinctKeys env dto user token w distinct =
    rw create_lem (go (find_share w dto.id) refl (expiration_for env dto (get_by_token w token)))
  where
    go :
        (o : Option Share)
        → find_share w dto.id ≡ o
        → (t : Outcome ℕ)
        → HasDistinctKeys
            (λ (s : Share). s.id)
            (if is_some o
              then (throws (bad_request "Share id already in use"), w)
              else stored env dto user (get_by_token w token) w t).1.shares
    go (some s) taken t = distinct
    go none free (throws e) = distinct
    go none free (ok t) = (
      subst (λ k. IsFree (λ (s : Share). s.id) k w.shares)
          (sym (linked-new_share env dto user (get_by_token w token) t).0)
          (find?-IsFree (λ s. s.id) dto.id w.shares free),
      distinct,
    )

-- A share that was created cannot be seen before it is completed.
pub get-create :
    (env : Env) (dto : CreateShare) (user : Option User) (token : Option String) (w w' : World)
    (s : Share)
    → create env dto user token w ≡ (ok s, w')
    → get w' dto.id ≡ throws (not_found "Share not found")
unfolding get find_share find?
get-create env dto user token w w' s h = elim (Option-cases (find_share w dto.id)) [
  | inr (x, taken) ↦ absurd (ground (arith, create_lem env dto user token w))
  | inl free ↦ elim (Outcome-cases (expiration_for env dto (get_by_token w token))) [
    | inr (e, refused) ↦ absurd (ground (arith, create_lem env dto user token w))
    | inl (t, allowed) ↦
        let new = linked (get_by_token w token) (new_share env dto user t) in
        let after : w' ≡ record w {
          shares = new ∷ w.shares;
          directories = directories_with env (new_share env dto user t) w.directories;
        } =
          ground (arith, create_lem env dto user token w) in
        let (same_id, hidden) = linked-new_share env dto user (get_by_token w token) t in
        rw after (ground (arith, same_id, hidden, eq_refl dto.id))
  ]
]
