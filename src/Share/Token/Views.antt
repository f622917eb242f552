-- ===== src/Share/Token/Views.antt =====
-- The view counter and its limit, over `getShareToken` and over the direct access of
-- backend/src/file/guard/fileSecurity.guard.ts.
use i_transfer.Base.{
  ℕ, ◌+◌, ◌≤◌, ◌≡◌, refl, sym, String, ◌==◌, HasDistinctKeys-update_where, false, Option, none,
  some, arith, inl, inr, All, HasDistinctKeys, All-update_where, Option-cases, truthy_num,
}
use mathlib.Core.Path.{subst}
use i_transfer.Env.{Env}
use i_transfer.Guard.Security.{direct_access, live_share}
use i_transfer.Share.Token.{
  is_views_exceeded, get_share_token, generate_share_token, increase_view_count,
}
use i_transfer.World.{World, Share, find_share, find_share-id, update_share-some}

-- The limit of a share, where it has one; 0 is no limit.
abbrev pub limit_of : Share → Option ℕ
limit_of s = elim s.security [ none ↦ none | some sec ↦ truthy_num sec.max_views ]

abbrev AtMost : ℕ → Option ℕ → Type 0
AtMost n none = Unit
AtMost n (some m) = n ≤ m

-- The views of a share do not pass its limit.
abbrev pub IsWithinLimit : Share → Type 0
IsWithinLimit s = AtMost s.views (limit_of s)

-- Every share is within its limit, and no two shares have the same id.
pub record HasBoundedViews (w : World) : Type 0 where
  pub distinct : HasDistinctKeys (λ s. s.id) w.shares
  pub within : All IsWithinLimit w.shares

viewed : Share → Share
viewed s = record s { views = s.views + 1 }

viewed-IsWithinLimit : (s : Share) → is_views_exceeded s ≡ false → IsWithinLimit (viewed s)
unfolding viewed is_views_exceeded
viewed-IsWithinLimit s h = elim (Option-cases (limit_of s)) [
  | inl free ↦ subst (AtMost (s.views + 1)) (sym free) tt
  | inr (n, bounded) ↦ subst (AtMost (s.views + 1)) (sym bounded) (ground arith)
]

increase_view_count-HasBoundedViews :
    (w : World) (s : Share)
    → find_share w s.id ≡ some s
    → is_views_exceeded s ≡ false
    → HasBoundedViews w
    → HasBoundedViews (increase_view_count s w).1
unfolding increase_view_count viewed
increase_view_count-HasBoundedViews w s found under b =
    rw (update_share-some w s.id _ found) (record {
      distinct =
          HasDistinctKeys-update_where (λ s. s.id) (λ x. x.id == s.id) _ w.shares (λ x. refl)
            b.distinct;
      within =
          All-update_where (λ s. s.id) IsWithinLimit s.id (λ x. record x { views = s.views + 1 })
            w.shares {s = s} b.distinct (unfold find_share in found) (viewed-IsWithinLimit s under)
            b.within;
    })

-- Handing out a share token never takes the views of a share past its limit, whether the request
-- succeeds or fails.
pub get_share_token-HasBoundedViews :
    (env : Env) (w : World) (id : String) (password : Option String)
    → HasBoundedViews w
    → HasBoundedViews (get_share_token env id password w).1
unfolding get_share_token generate_share_token
get_share_token-HasBoundedViews env w id password b = elim (Option-cases (find_share w id)) [
  | inl missing ↦ rw missing b
  | inr (s, found) ↦
      ground (arith, increase_view_count-HasBoundedViews w s, found, b, find_share-id w id s found)
]

-- Serving a file that is asked for without a share token never takes the views of a share past its
-- limit, whether the request succeeds or fails.
pub direct_access-HasBoundedViews :
    (env : Env) (w : World) (id : String)
    → HasBoundedViews w
    → HasBoundedViews (direct_access env id w).1
unfolding direct_access live_share
direct_access-HasBoundedViews env w id b = elim (Option-cases (find_share w id)) [
  | inl missing ↦ ground (arith, b, missing)
  | inr (s, found) ↦
      ground (arith, increase_view_count-HasBoundedViews w s, found, b, find_share-id w id s found)
]
