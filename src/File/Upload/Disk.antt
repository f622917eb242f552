-- ===== src/File/Upload/Disk.antt =====
-- Files on the disk that are appended to and renamed, read back.
use mathlib.Core.Option
use i_transfer.Base.{
  ◌≡◌, refl, ap, true, false, ◌&&◌, none, some, List, ◌∷◌, ℕ, find?, delete_where,
  find?-delete_where, find?-delete_where_self, arith, Bool-cases, inl, inr, eq_iff, eq_refl,
}
use i_transfer.File.Upload.{is_at, same_entry}
use i_transfer.Migration.Disk.Reads.{at, same_directory_refl, same_directory_eq}
use i_transfer.Storage.{same_directory}
use i_transfer.World.{Directory, Blob, Entry, tmp_chunk, stored}

same_entry_refl : (e : Entry) → same_entry e e ≡ true
same_entry_refl (tmp_chunk a) = eq_refl a
same_entry_refl (stored a) = eq_refl a

same_entry_eq : (a b : Entry) → same_entry a b ≡ true → a ≡ b
same_entry_eq (tmp_chunk a) (tmp_chunk b) h = ap tmp_chunk ((eq_iff a b).0 h)
same_entry_eq (stored a) (stored b) h = ap stored ((eq_iff a b).0 h)
same_entry_eq (tmp_chunk a) (stored b) h = cc
same_entry_eq (stored a) (tmp_chunk b) h = cc

-- This place is not that one.
abbrev pub IsOther : Directory → Entry → Directory → Entry → Type 0
IsOther d e d' e' = (same_directory d' d && same_entry e' e) ≡ false

pub at-cons :
    (disk : List Blob) (d : Directory) (e : Entry) (bytes : List ℕ)
    → at (record { directory = d; entry = e; bytes = bytes } ∷ disk) d e ≡ some bytes
unfolding find?
at-cons disk d e bytes = rw (same_directory_refl d, same_entry_refl e) refl

pub IsOther-flip :
    (d : Directory) (e : Entry) (d' : Directory) (e' : Entry)
    → IsOther d e d' e'
    → IsOther d' e' d e
IsOther-flip d e d' e' other = elim (Bool-cases (same_directory d d' && same_entry e e')) [
  | inr different ↦ different
  | inl here ↦
      let same_d : d ≡ d' = same_directory_eq d d' (ground arith) in
      let same_e : e ≡ e' = same_entry_eq e e' (ground arith) in
      rw (same_d, same_e) (rw (same_d, same_e) at other)
]

pub at-cons_other :
    (disk : List Blob) (d : Directory) (e : Entry) (bytes : List ℕ) (d' : Directory) (e' : Entry)
    → IsOther d e d' e'
    → at (record { directory = d; entry = e; bytes = bytes } ∷ disk) d' e' ≡ at disk d' e'
unfolding find?
at-cons_other disk d e bytes d' e' other = rw (IsOther-flip d e d' e' other) refl

-- What a deletion of one place leaves at another.
pub at-delete :
    (disk : List Blob) (d : Directory) (e : Entry) → at (delete_where (is_at d e) disk) d e ≡ none
at-delete disk d e = ap (Option.map (λ b. b.bytes)) (find?-delete_where_self (is_at d e) disk)

is_at-other :
    (d : Directory) (e : Entry) (d' : Directory) (e' : Entry) (b : Blob)
    → IsOther d' e' d e
    → is_at d e b ≡ true
    → is_at d' e' b ≡ false
is_at-other d e d' e' b other here =
    let same_d : b.directory ≡ d = same_directory_eq b.directory d (ground arith) in
    let same_e : b.entry ≡ e = same_entry_eq b.entry e (ground arith) in rw (same_d, same_e) other

pub at-delete_other :
    (disk : List Blob) (d : Directory) (e : Entry) (d' : Directory) (e' : Entry)
    → IsOther d' e' d e
    → at (delete_where (is_at d' e') disk) d e ≡ at disk d e
at-delete_other disk d e d' e' other = ap (Option.map (λ b. b.bytes)) (
    find?-delete_where (is_at d e) (is_at d' e') disk
      (λ b here. is_at-other d e d' e' b other here))
