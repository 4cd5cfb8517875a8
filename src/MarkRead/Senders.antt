-- ===== src/MarkRead/Senders.antt =====
-- The grouping of a chat's rows by sender.
use whatsapp_mcp.Prelude.{
  ℕ, suc, ◌≤◌, ◌≡◌, refl, sym, ap, ◌∙◌, String, str_eq, eq_iff, Bool, true, false, not, ◌&&◌, List,
  [], ◌∷◌, ◌++◌, ◌==◌, if◌then◌else◌, if_both, arith, inl, inr, Bool-cases,
}
use whatsapp_mcp.MarkRead.{
  Unread, SenderBatch, add_to, is_unaddressable, group_rows, group_by_sender,
}

-- The messages of one sender, in their order.
unfoldable pub sent_by : String → String → List Unread → List String
sent_by chat_user sender [] = []
sent_by chat_user sender (m ∷ ms) =
    let rest = sent_by chat_user sender ms in
    if not (is_unaddressable chat_user m) && str_eq m.sender sender then m.id ∷ rest else rest

-- The messages that no participant can be named for.
unfoldable pub unaddressed : String → List Unread → List String
unaddressed chat_user [] = []
unaddressed chat_user (m ∷ ms) =
    let rest = unaddressed chat_user ms in
    if is_unaddressable chat_user m then m.id ∷ rest else rest

-- The messages of the groups of one sender, and how many groups these are.
unfoldable pub ids_of : String → List SenderBatch → List String
ids_of sender [] = []
ids_of sender (g ∷ gs) =
    let rest = ids_of sender gs in if str_eq g.sender sender then g.ids ++ rest else rest

unfoldable pub groups_of : String → List SenderBatch → ℕ
groups_of sender [] = 0
groups_of sender (g ∷ gs) =
    let rest = groups_of sender gs in if str_eq g.sender sender then suc rest else rest

append_nil : {A : Type 0} (xs : List A) → xs ++ [] ≡ xs
append_nil [] = refl
append_nil (x ∷ xs) = ap (λ r. x ∷ r) (append_nil xs)

append_assoc : {A : Type 0} (xs ys zs : List A) → (xs ++ ys) ++ zs ≡ xs ++ (ys ++ zs)
append_assoc [] ys zs = refl
append_assoc (x ∷ xs) ys zs = ap (λ r. x ∷ r) (append_assoc xs ys zs)

same_test : (a b c : String) → str_eq a b ≡ true → str_eq a c ≡ str_eq b c
same_test a b c h = ap (λ x. str_eq x c) ((eq_iff a b).0 h)

-- Two names are not both the same as a third unless they are the same.
apart : (a b c : String) → str_eq a b ≡ false → (str_eq a c && str_eq b c) ≡ false
apart a b c h = elim (Bool-cases (str_eq a c && str_eq b c)) [
  | inl both ↦
      let l : a ≡ c = (eq_iff a c).0 (ground arith) in
      let r : b ≡ c = (eq_iff b c).0 (ground arith) in
      let t : str_eq a b ≡ true = (eq_iff a b).1 (l ∙ sym r) in cc
  | inr n ↦ n
]

groups_of-add_to :
    (sender other id : String) (gs : List SenderBatch)
    → groups_of other (add_to sender id gs)
      ≡ (if str_eq sender other && groups_of other gs == 0 then 1 else groups_of other gs)
unfolding groups_of add_to
groups_of-add_to sender other id [] = ground arith
groups_of-add_to sender other id (g ∷ gs) = elim (Bool-cases (str_eq g.sender sender)) [
  | inl h ↦ ground (arith, same_test g.sender sender other h)
  | inr h ↦ ground (arith, apart g.sender sender other h, groups_of-add_to sender other id gs)
]

none_left :
    (sender : String) (gs : List SenderBatch) → groups_of sender gs ≡ 0 → ids_of sender gs ≡ []
unfolding groups_of ids_of
none_left sender [] h = refl
none_left sender (g ∷ gs) h = ground (arith, none_left sender gs)

abbrev one_if : Bool → String → List String
one_if b id = if b then id ∷ [] else []

ids_of-add_to :
    (sender other id : String) (gs : List SenderBatch)
    → groups_of other gs ≤ 1
    → ids_of other (add_to sender id gs) ≡ ids_of other gs ++ one_if (str_eq sender other) id
unfolding ids_of groups_of add_to
ids_of-add_to sender other id [] h = ground (arith, append_nil (id ∷ []))
ids_of-add_to sender other id (g ∷ gs) h = elim (Bool-cases (str_eq g.sender sender)) [
  | inl e ↦ elim (Bool-cases (str_eq sender other)) [
    | inl o ↦
        let alone : groups_of other gs ≡ 0 = ground (arith, same_test g.sender sender other e) in
        ground (
          arith,
          same_test g.sender sender other e,
          none_left other gs alone,
          append_nil (g.ids ++ id ∷ []),
          append_nil g.ids,
        )
    | inr o ↦ ground (arith, same_test g.sender sender other e, append_nil (ids_of other gs))
  ]
  | inr e ↦ elim (Bool-cases (str_eq g.sender other)) [
    | inl o ↦ ground (
      arith,
      apart g.sender sender other e,
      ids_of-add_to sender other id gs,
      append_nil (ids_of other gs),
      append_nil (g.ids ++ ids_of other gs),
    )
    | inr o ↦ ground (arith, ids_of-add_to sender other id gs)
  ]
]

-- One group at most for the sender, with these messages, and these lost.
abbrev Grouped : String → List String → List String → List SenderBatch × List String → Type 0
Grouped sender ids lost r =
    (groups_of sender (r.0) ≤ 1) × ((ids_of sender (r.0) ≡ ids) × (r.1 ≡ lost))

group_rows-Grouped :
    (chat_user sender : String) (ms : List Unread) (gs : List SenderBatch) (lost : List String)
    → groups_of sender gs ≤ 1
    → Grouped sender
        (ids_of sender gs ++ sent_by chat_user sender ms)
        (lost ++ unaddressed chat_user ms)
        (group_rows chat_user ms (gs, lost))
unfolding group_rows sent_by unaddressed
group_rows-Grouped chat_user sender [] gs lost h =
    (h, (sym (append_nil (ids_of sender gs)), sym (append_nil lost)))
group_rows-Grouped chat_user sender (m ∷ ms) gs lost h =
    if_both
      (λ st.
        Grouped sender (ids_of sender gs ++ sent_by chat_user sender (m ∷ ms))
          (lost ++ unaddressed chat_user (m ∷ ms)) (group_rows chat_user ms st))
      (is_unaddressable chat_user m) _ _
      (λ u.
        let r = group_rows-Grouped chat_user sender ms gs (lost ++ m.id ∷ []) h in
        (
          r.0,
          (
            (r.1).0 ∙ ground (arith, u),
            (r.1).1 ∙ ground (arith, u, append_assoc lost (m.id ∷ []) (unaddressed chat_user ms)),
          ),
        ))
      (λ u.
        let one : groups_of sender (add_to m.sender m.id gs) ≤ 1 =
          ground (arith, groups_of-add_to m.sender sender m.id gs) in
        let r = group_rows-Grouped chat_user sender ms (add_to m.sender m.id gs) lost one in
        (
          r.0,
          (
            (r.1).0
                ∙ ground (
                  arith,
                  u,
                  ids_of-add_to m.sender sender m.id gs h,
                  append_nil (ids_of sender gs),
                  append_assoc (ids_of sender gs) (m.id ∷ []) (sent_by chat_user sender ms),
                ),
            (r.1).1 ∙ ground (arith, u),
          ),
        ))

-- For a chat of several users, whose groups are the rows of its senders: each sender has one group at
-- most, with the messages of its rows in their order, and the rest are the rows without a participant.
pub group_by_sender-splits :
    (chat_user sender : String) (pending : List Unread)
    → (groups_of sender ((group_by_sender false chat_user pending).0) ≤ 1)
      × ((ids_of sender ((group_by_sender false chat_user pending).0)
            ≡ sent_by chat_user sender pending)
          × ((group_by_sender false chat_user pending).1 ≡ unaddressed chat_user pending))
unfolding group_by_sender groups_of ids_of
group_by_sender-splits chat_user sender pending =
    group_rows-Grouped chat_user sender pending [] [] (omega arith)
