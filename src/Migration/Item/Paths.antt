-- ===== src/Migration/Item/Paths.antt =====
-- The paths of a migration, and where the bytes of a share's file are read.
use Prim.Native.String.{◌++◌}
use text.Mathlib.TextLemmas.{append_cancel_left, append-nil, append-eq-nil_iff}
use i_transfer.Base.{
  ◌≡◌, refl, sym, ◌∙◌, true, false, Option, none, some, List, [], ◌∷◌, ℕ, String, get_or, truthy,
  arith, Bool-cases, inl, inr, ◌⊎◌, ◌==◌, eq_iff, eq_refl,
}
use i_transfer.Env.{Env}
use i_transfer.File.Upload.{bytes_at}
use i_transfer.Migration.{Machine, are_paths_equal}
use i_transfer.Migration.Item.{assert_expected_files_exist}
use i_transfer.Storage.{resolve_share_directory}
use i_transfer.World.{World, Share, File, Directory, Entry, find_share, local, s3, StorageProvider}

pub temp_name : (id job_id : String) → ((id ++ (".migration-" ++ job_id)) == id) ≡ false
temp_name id job_id = elim (Bool-cases ((id ++ (".migration-" ++ job_id)) == id)) [
  | inr other ↦ other
  | inl same ↦
      let suffix : String = ".migration-" in
      let cut : ◌≡◌ {A = String} (suffix ++ job_id) "" =
        append_cancel_left id (suffix ++ job_id) ""
          ((eq_iff (id ++ (suffix ++ job_id)) id).0 same ∙ sym (append-nil id)) in
      let nothing : ◌≡◌ {A = String} suffix "" =
        ((append-eq-nil_iff {p = suffix} {q = job_id}).0 cut).0 in
      let equal : (suffix == "") ≡ true = (eq_iff suffix "").1 nothing in
      absurd (ground (arith, equal))
]

pub paths_differ :
    (machine : Machine) (a b : String) → are_paths_equal machine a b ≡ false → (a == b) ≡ false
unfolding are_paths_equal
paths_differ machine a b h = elim (Bool-cases (a == b)) [
  | inr other ↦ other
  | inl same ↦
      let equal : a ≡ b = (eq_iff a b).0 same in
      absurd (ground (arith, rw equal at h, eq_refl (machine.to_lower_case (machine.resolve b))))
]

-- What the code relies on of `path.resolve`: it gives an absolute path, and gives that path again.
pub record IsResolver (machine : Machine) : Type 0 where
  pub not_empty : (p : String) → truthy (some (machine.resolve p)) ≡ some (machine.resolve p)
  pub again : (p : String) → machine.resolve (machine.resolve p) ≡ machine.resolve p

-- The root of a local share.
abbrev pub root_of : Env → Share → String
root_of env s = get_or env.settings.share_directory (truthy s.local_storage_path)

-- The bytes of a file of a share, where the share's row says that they lie.
unfoldable pub share_bytes : Env → World → String → Entry → Option (List ℕ)
share_bytes env w id e = elim (find_share w id) [
  | none ↦ none
  | some s ↦ bytes_at w (resolve_share_directory env s) e
]

pub assert_expected-state :
    (d : Directory) (files : List File) (w : World) → (assert_expected_files_exist d files w).1 ≡ w
unfolding assert_expected_files_exist
assert_expected-state d [] w = refl
assert_expected-state d (f ∷ files) w = ground (arith, assert_expected-state d files w)

pub share_bytes-some :
    (env : Env) (w : World) (id : String) (t : Share) (e : Entry)
    → find_share w id ≡ some t
    → share_bytes env w id e ≡ bytes_at w (resolve_share_directory env t) e
unfolding share_bytes
share_bytes-some env w id t e row = rw (row, share_bytes) refl

pub provider_cases : (p : StorageProvider) → (p ≡ local) ⊎ (p ≡ s3)
provider_cases local = inl refl
provider_cases s3 = inr refl

-- A share that is there, with its root resolved and its files as they were.
pub record IsIntact (env : Env) (machine : Machine) (id : String) (before w : World) : Type 0 where
  pub share : Share
  pub row : find_share w id ≡ some share
  pub resolved : machine.resolve (root_of env share) ≡ root_of env share
  pub held : (e : Entry) → share_bytes env w id e ≡ share_bytes env before id e
