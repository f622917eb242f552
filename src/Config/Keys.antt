-- ===== src/Config/Keys.antt =====
-- A key of two parts stands for the row with these names.
use i_transfer.Base.{
  ℕ, ◌≡◌, refl, ap, sym, ◌∙◌, List, [], ◌∷◌, ◌++◌, eqb, Bool-cases, inl, inr, arith,
}
use i_transfer.Config.{Config, key_of, is_named}
use i_transfer.File.Name.{name_eq}
use i_transfer.File.Name.Available.{name_eq_iff}
use i_transfer.Text.{split_units, extend_head}

-- The key is `category.name`, with no other dot.
abbrev pub HasParts : (key category name : List ℕ) → Type 0
HasParts key category name = split_units b'.' key ≡ category ∷ name ∷ []

-- The parts with a dot between them.
join : List (List ℕ) → List ℕ
join [] = []
join (part ∷ []) = part
join (part ∷ next ∷ parts) = part ++ (b'.' ∷ join (next ∷ parts))

split-ne-nil : (t : List ℕ) → (h : List ℕ) × (r : List (List ℕ)) × (split_units b'.' t ≡ h ∷ r)
unfolding split_units
split-ne-nil [] = ([], [], refl)
split-ne-nil (c ∷ cs) = elim (Bool-cases (eqb c b'.')) [
  | inl dot ↦ ([], split_units b'.' cs, rw dot refl)
  | inr other ↦ let (h, r, e) = split-ne-nil cs in (c ∷ h, r, rw (other, e) refl)
]

join-extend_head :
    (c : ℕ) (h : List ℕ) (r : List (List ℕ)) → join (extend_head c (h ∷ r)) ≡ c ∷ join (h ∷ r)
unfolding join
join-extend_head c h [] = refl
join-extend_head c h (n ∷ r) = refl

join-split : (t : List ℕ) → join (split_units b'.' t) ≡ t
unfolding split_units join
join-split [] = refl
join-split (c ∷ cs) =
    let (h, r, e) = split-ne-nil cs in
    elim (Bool-cases (eqb c b'.')) [
      | inl dot ↦
          rw (dot, e)
            (ap (◌∷◌ b'.') (ap join (sym e) ∙ join-split cs) ∙ ap (λ d. d ∷ cs) (ground arith))
      | inr other ↦
          rw (other, e) (join-extend_head c h r ∙ ap (◌∷◌ c) (ap join (sym e) ∙ join-split cs))
    ]

-- Splitting a text at its dots splits its parts.
split-append_dot :
    (a b : List ℕ) → split_units b'.' (a ++ (b'.' ∷ b)) ≡ split_units b'.' a ++ split_units b'.' b
unfolding split_units
split-append_dot [] b = refl
split-append_dot (c ∷ a) b =
    let (h, r, e) = split-ne-nil a in
    elim (Bool-cases (eqb c b'.')) [
      | inl dot ↦ rw (dot, split-append_dot a b) refl
      | inr other ↦ rw (other, split-append_dot a b, e) refl
    ]

two_parts :
    (h : List ℕ) (r : List (List ℕ)) (h' : List ℕ) (r' : List (List ℕ)) (a b : List ℕ)
    → (h ∷ r) ++ (h' ∷ r') ≡ a ∷ b ∷ []
    → (h ∷ r ≡ a ∷ []) × (h' ∷ r' ≡ b ∷ [])
two_parts h [] h' r' a b e = (cc, cc)
two_parts h (x ∷ []) h' r' a b e = absurd (cc)
two_parts h (x ∷ y ∷ r) h' r' a b e = absurd (cc)

-- A text that splits into one part is that part.
one_part : (t a : List ℕ) → split_units b'.' t ≡ a ∷ [] → t ≡ a
unfolding join
one_part t a e = sym (join-split t) ∙ ap join e

module _ (key category name : List ℕ) (parts : HasParts key category name) where
  names_of_key : (c : Config) → key_of c ≡ key → (c.category ≡ category) × (c.name ≡ name)
  names_of_key c same =
      let (h, r, e) = split-ne-nil c.category in
      let (h', r', e') = split-ne-nil c.name in
      let all : (h ∷ r) ++ (h' ∷ r') ≡ category ∷ name ∷ [] =
        ap (λ p. p ++ (h' ∷ r')) (sym e)
        ∙ ap (λ p. split_units b'.' c.category ++ p) (sym e')
        ∙ sym (split-append_dot c.category c.name)
        ∙ ap (split_units b'.') same
        ∙ parts in
      let (first, second) = two_parts h r h' r' category name all in
      (one_part c.category category (e ∙ first), one_part c.name name (e' ∙ second))

  key_of_names : (c : Config) → c.category ≡ category → c.name ≡ name → key_of c ≡ key
  unfolding join
  key_of_names c first second =
      ap (λ x. x ++ (b'.' ∷ c.name)) first
      ∙ ap (λ x. category ++ (b'.' ∷ x)) second
      ∙ ap join (sym parts)
      ∙ join-split key

  -- Looking a row up by its key is looking it up by its names.
  pub key_of-is_named : (c : Config) → name_eq (key_of c) key ≡ is_named category name c
  key_of-is_named c = elim (Bool-cases (name_eq (key_of c) key)) [
    | inl same ↦
        let (first, second) = names_of_key c ((name_eq_iff (key_of c) key).0 same) in
        rw (same, (name_eq_iff c.category category).1 first, (name_eq_iff c.name name).1 second)
          refl
    | inr other ↦ elim (Bool-cases (is_named category name c)) [
      | inr miss ↦ rw (other, miss) refl
      | inl hit ↦
          let first = (name_eq_iff c.category category).0 (ground arith) in
          let second = (name_eq_iff c.name name).0 (ground arith) in
          let same = (name_eq_iff (key_of c) key).1 (key_of_names c first second) in cc
    ]
  ]
