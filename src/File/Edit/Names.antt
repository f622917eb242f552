-- ===== src/File/Edit/Names.antt =====
-- The names in a share after a file is renamed.
use i_transfer.Base.{
  ℕ, String, Bool, true, false, ◌≡◌, refl, sym, Option, none, some, List, [], ◌∷◌, inl, inr, arith,
  eqb, length, Option-cases,
}
use i_transfer.File.Name.{has, create_available_file_name}
use i_transfer.File.Name.Available.{has-create_available_file_name}
use i_transfer.File.Edit.{rename_local, desired_name, other_names, find_file_of, reset_zip}
use i_transfer.World.{
  Ends, Ends-resume, Ends-or_throw, Ends-throw_if, Ends-weaken, Ends-ok, World, Share, File,
  Outcome, ok, throws, throw_if, or_throw, bad_request, not_found, update_file, find_share,
  find_file,
}

-- The updated row has the name that is written.
update_file-Ends :
    (id : String) (name : List ℕ) (w : World)
    → Ends (λ f _. f.name ≡ name) (λ _. Unit {0}) (update_file id (λ f. record f { name = name }) w)
unfolding update_file
update_file-Ends id name w = go (find_file w id)
  where
    go :
        (o : Option File)
        → Ends {A = File}
            (λ f _. f.name ≡ name)
            (λ _. Unit {0})
            (elim o [
              | none ↦ (throws i_transfer.World.record_not_found, w)
              | some x ↦ (
                ok (record x { name = name }),
                record w {
                  files =
                      i_transfer.Base.update_where
                        (λ x. i_transfer.Base.◌==◌ x.id id)
                        (λ (f : File). record f { name = name })
                        w.files;
                },
              )
            ])
    go none = tt
    go (some x) = refl

reset_zip-Ends :
    (P : Type 0) (s : Option Share) (w : World)
    → P
    → Ends (λ _ _. P) (λ _. Unit {0}) (reset_zip s w)
reset_zip-Ends P s w p = anything (reset_zip s w)
  where
    anything : (r : Outcome (Unit {0}) × World) → Ends (λ _ _. P) (λ _. Unit {0}) r
    anything (ok a, w) = p
    anything (throws e, w) = tt

rename_local-Ends :
    (share_id file_id : String) (name : Option (List ℕ)) (w : World)
    → Ends
        (λ f _. has (other_names w file_id share_id) f.name ≡ false)
        (λ _. Unit {0})
        (rename_local share_id file_id name w)
unfolding rename_local
rename_local-Ends share_id file_id name w =
    let used = other_names w file_id share_id in
    let chosen = create_available_file_name (desired_name name) used in
    let empty = eqb (length (desired_name name)) 0 in
    Ends-resume _ _ (throw_if empty _ w) _ (
      Ends-throw_if _ _ empty _ w tt λ _.
        Ends-resume _ _ (or_throw (not_found "File not found") (find_file_of w file_id share_id) w)
          _
          (Ends-or_throw _ _ _ (find_file_of w file_id share_id) w tt λ _ _.
            Ends-resume _ _ (update_file file_id (λ f. record f { name = chosen }) w) _ (
              Ends-weaken _ _ _ _ (update_file file_id (λ f. record f { name = chosen }) w)
                (update_file-Ends file_id chosen w)
                (λ f w1 named. Ends-resume _ _ (reset_zip (find_share w share_id) w1) _ (
                  reset_zip-Ends _ (find_share w share_id) w1
                    (rw named (has-create_available_file_name (desired_name name) used))))
                (λ _ _. tt))))

-- A file that is renamed gets a name that no other file of the share has.
pub has-rename_local :
    (share_id file_id : String) (name : Option (List ℕ)) (w w' : World) (f : File)
    → rename_local share_id file_id name w ≡ (ok f, w')
    → has (other_names w file_id share_id) f.name ≡ false
has-rename_local share_id file_id name w w' f done =
    Ends-ok _ _ _ f w' done (rename_local-Ends share_id file_id name w)
