-- ===== src/Polls/Names.antt =====
-- The names behind the hashes of a vote.
use whatsapp_mcp.Prelude.{
  ◌≡◌, refl, ap, subst, ◌∙◌, Bool, true, false, ◌&&◌, none, some, List, [], ◌∷◌, ◌++◌, map, arith,
  Bool-cases, inl, inr, ◌⊎◌,
}
use whatsapp_mcp.Prelude.Text.{Text, text_eq, text_eq_to, text_eq_refl, has}
use whatsapp_mcp.Polls.{name_of, shown, option_names_for_hashes}

unfoldable pub all_in : List Text → List Text → Bool
all_in options [] = true
all_in options (s ∷ ss) = has options s && all_in options ss

module _ (hash : Text → Text) (options : List Text)
    (apart : (a b : Text)
      → has options a ≡ true
      → has options b ≡ true
      → hash a ≡ hash b
      → a ≡ b) where
  abbrev Found : List Text → Text → Type 0
  Found names s =
      ((has names s ≡ true) × (name_of hash names (hash s) ≡ some s))
      ⊎ ((has names s ≡ false) × (name_of hash names (hash s) ≡ none))

  name_of-Found :
      (names : List Text) (s : Text)
      → ((a : Text) → has names a ≡ true → has options a ≡ true)
      → has options s ≡ true
      → Found names s
  unfolding name_of has
  name_of-Found [] s within known = inr (refl, refl)
  name_of-Found (n ∷ ns) s within known =
      elim (name_of-Found ns s (λ a h. within a (ground (arith, h))) known) [
        | inl there ↦ inl (ground (arith, there.0), ground (arith, there.1))
        | inr absent ↦ elim (Bool-cases (text_eq n s)) [
          | inl same ↦
              let equal : n ≡ s = text_eq_to n s same in
              let hashed : text_eq (hash n) (hash s) ≡ true =
                subst (λ x. text_eq (hash n) (hash x) ≡ true) equal (text_eq_refl (hash n)) in
              inl (ground (arith, same), ground (arith, absent.1, hashed) ∙ ap some equal)
          | inr other ↦
              let hashed : text_eq (hash n) (hash s) ≡ false =
                elim (Bool-cases (text_eq (hash n) (hash s))) [
                  | inl e ↦
                      let equal : n ≡ s =
                        apart n s (within n (ground (arith, text_eq_refl n))) known
                          (text_eq_to (hash n) (hash s) e) in
                      let again : text_eq n s ≡ true =
                        subst (λ x. text_eq n x ≡ true) equal (text_eq_refl n) in
                      cc
                  | inr e ↦ e
                ] in
              inr (ground (arith, other, absent.0), ground (arith, absent.1, hashed))
        ]
      ]

  name_of-hash : (s : Text) → has options s ≡ true → name_of hash options (hash s) ≡ some s
  name_of-hash s known = elim (name_of-Found options s (λ a h. h) known) [
    | inl there ↦ there.1
    | inr absent ↦ ground (arith, absent.0, known)
  ]

-- Where no two options of a poll share a hash, the hashes of options give back their names, in order.
option_names-hashes :
    (hash : Text → Text) (options selected : List Text)
    → ((a b : Text) → has options a ≡ true → has options b ≡ true → hash a ≡ hash b → a ≡ b)
    → all_in options selected ≡ true
    → option_names_for_hashes hash options (map hash selected) ≡ selected
unfolding option_names_for_hashes all_in
option_names-hashes hash options [] apart h = refl
option_names-hashes hash options (s ∷ ss) apart h =
    ap (λ o. shown hash o (hash s) ++ option_names_for_hashes hash options (map hash ss))
      (name_of-hash hash options apart s (ground (arith, h)))
    ∙ ap (λ r. s ∷ r) (option_names-hashes hash options ss apart (ground (arith, h)))
