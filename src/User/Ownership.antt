-- ===== src/User/Ownership.antt =====
-- What a transfer of ownership moves.
use i_transfer.Base.{
  ℕ, String, Bool, true, false, ◌+◌, ◌≡◌, refl, ◌==◌, Option, none, some, List, [], ◌∷◌, inl, inr,
  arith, Bool-cases, same, count, update_where, eq_iff, eq_refl,
}
use i_transfer.User.{transfer_ownership, move_ownership, get_transfer_ownership_summary, Transfer}
use i_transfer.World.{
  World, Share, ok, throw_if, or_throw, bad_request, find_user, Ends, Ends-resume, Ends-throw_if,
  Ends-or_throw, Ends-ok,
}

-- How many shares an account owns.
abbrev pub owned : String → List Share → ℕ
owned id shares = count (λ s. same s.creator_id (some id)) shares

abbrev moved : (source target : String) → List Share → List Share
moved source target shares =
    update_where (λ s. same s.creator_id (some source)) (λ s. record s { creator_id = some target })
      shares

other_way : (a b : String) → (a == b) ≡ false → (b == a) ≡ false
other_way a b differ = ground (arith, eq_iff b a, eq_refl a)

not_both :
    (c : Option String) (a b : String)
    → (a == b) ≡ false
    → same c (some a) ≡ true
    → same c (some b) ≡ false
not_both none a b differ h = refl
not_both (some c) a b differ h = ground (arith, eq_iff c a, eq_iff c b)

owned-moved :
    (source target : String) (shares : List Share)
    → (source == target) ≡ false
    → (owned source (moved source target shares) ≡ 0)
      × (owned target (moved source target shares) ≡ owned target shares + owned source shares)
unfolding count update_where
owned-moved source target [] differ = (refl, refl)
owned-moved source target (s ∷ shares) differ =
    let none_left = (owned-moved source target shares differ).0 in
    let all_there = (owned-moved source target shares differ).1 in
    elim (Bool-cases (same s.creator_id (some source))) [
      | inl own ↦
          let other = not_both s.creator_id source target differ own in
          let swapped = other_way source target differ in
          rw (own, other, swapped, eq_refl target) (omega arith, omega arith)
      | inr other ↦ rw other (rw other (omega arith, omega arith))
    ]

-- The shares of an account that has given its shares away, and of the account that has got them.
abbrev pub IsMoved : (source target : String) → World → Transfer → World → Type 0
IsMoved source target w t w' =
    (owned source w'.shares ≡ 0)
    × (owned target w'.shares ≡ owned target w.shares + t.shares_transferred)

transfer_ownership-Ends :
    (source target : String) (include_reverse_shares : Bool) (w : World)
    → Ends
        (λ t w'. IsMoved source target w t w')
        (λ w'. w' ≡ w)
        (transfer_ownership source target include_reverse_shares w)
unfolding transfer_ownership move_ownership get_transfer_ownership_summary
transfer_ownership-Ends source target include_reverse_shares w =
    let is_same = source == target in
    Ends-resume _ _ (throw_if is_same _ w) _ (
      Ends-throw_if _ _ is_same _ w refl λ differ.
        Ends-resume _ _ (or_throw (bad_request "Source user not found") (find_user w source) w) _ (
          Ends-or_throw _ _ _ (find_user w source) w refl λ _ _.
            Ends-resume _ _ (or_throw (bad_request "Target user not found") (find_user w target) w)
              _
              (Ends-or_throw _ _ _ (find_user w target) w refl λ user _.
                Ends-resume _ _ (throw_if user.is_disabled _ w) _ (
                  Ends-throw_if _ _ user.is_disabled _ w refl λ _.
                    Ends-resume _ _ (get_transfer_ownership_summary source w) _ (
                      Ends-resume _ _
                        (or_throw (bad_request "User not found") (find_user w source) w) _
                        (Ends-or_throw _ _ _ (find_user w source) w refl
                          λ _ _. owned-moved source target w.shares differ))))))

-- After a transfer of ownership the source owns no share, and the target owns as many more as the
-- answer says.
pub transfer_ownership-IsMoved :
    (source target : String) (include_reverse_shares : Bool) (w w' : World) (t : Transfer)
    → transfer_ownership source target include_reverse_shares w ≡ (ok t, w')
    → IsMoved source target w t w'
transfer_ownership-IsMoved source target include_reverse_shares w w' t done =
    Ends-ok _ _ _ t w' done (transfer_ownership-Ends source target include_reverse_shares w)
