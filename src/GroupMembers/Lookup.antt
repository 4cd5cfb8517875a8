-- ===== src/GroupMembers/Lookup.antt =====
-- What the statements do to the row of one key.
use whatsapp_mcp.Prelude.{
  ℕ, suc, ◌+◌, ◌≤◌, ◌≡◌, refl, ap, sym, ◌∙◌, String, str_eq, eq_iff, Bool, true, false, ◌&&◌,
  Option, none, some, List, [], ◌∷◌, ◌++◌, ◌==◌, if◌then◌else◌, arith, Bool-cases, inl, inr,
}
use whatsapp_mcp.GroupMembers.{Row, has_key, upsert, delete, update_all}

unfoldable pub counted : String → String → List Row → ℕ
counted group user [] = 0
counted group user (r ∷ rs) =
    let rest = counted group user rs in if has_key group user r then suc rest else rest

unfoldable pub find : String → String → List Row → Option Row
find group user [] = none
find group user (r ∷ rs) =
    let rest = find group user rs in if has_key group user r then some r else rest

-- An update that keeps the key.
pub record KeepsKey (update : Row → Row) : Type 0 where
  pub same_group : (r : Row) → (update r).group ≡ r.group
  pub same_user : (r : Row) → (update r).user ≡ r.user

pub key_to :
    (group user : String) (r : Row)
    → has_key group user r ≡ true
    → (r.group ≡ group) × (r.user ≡ user)
key_to group user r h =
    ((eq_iff r.group group).0 (ground arith), (eq_iff r.user user).0 (ground arith))

pub has_key-update :
    (update : Row → Row)
    → KeepsKey update
    → (group user : String) (r : Row) → has_key group user (update r) ≡ has_key group user r
has_key-update update k group user r =
    ap (λ g. str_eq g group && str_eq (update r).user user) (k.same_group r)
    ∙ ap (λ u. str_eq r.group group && str_eq u user) (k.same_user r)

-- Two rows of one key share every key.
same_keys :
    (new r : Row) (group user : String)
    → has_key new.group new.user r ≡ true
    → has_key group user r ≡ has_key group user new
same_keys new r group user h =
    let k = key_to new.group new.user r h in
    ap (λ g. str_eq g group && str_eq r.user user) (k.0)
    ∙ ap (λ u. str_eq new.group group && str_eq u user) (k.1)

other_keys :
    (new r : Row) (group user : String)
    → has_key new.group new.user r ≡ false
    → (has_key group user r && has_key group user new) ≡ false
other_keys new r group user h = elim (Bool-cases (has_key group user r && has_key group user new)) [
  | inl both ↦
      let k = key_to group user r (ground arith) in
      let l = key_to group user new (ground arith) in
      let g : str_eq r.group new.group ≡ true = (eq_iff r.group new.group).1 (k.0 ∙ sym (l.0)) in
      let u : str_eq r.user new.user ≡ true = (eq_iff r.user new.user).1 (k.1 ∙ sym (l.1)) in
      ground (arith, g, u)
  | inr n ↦ n
]

pub counted-upsert :
    (update : Row → Row) (new : Row) (group user : String) (rs : List Row)
    → KeepsKey update
    → counted group user (upsert update new rs)
      ≡ (if has_key group user new && counted group user rs == 0 then 1 else counted group user rs)
unfolding counted upsert
counted-upsert update new group user [] k = ground arith
counted-upsert update new group user (r ∷ rs) k = elim (Bool-cases (has_key new.group new.user r)) [
  | inl h ↦ ground (arith, h, same_keys new r group user h, has_key-update update k group user r)
  | inr h ↦
      ground (arith, h, other_keys new r group user h, counted-upsert update new group user rs k)
]

abbrev pub updated : (Row → Row) → Row → Option Row → Option Row
updated update new none = some new
updated update new (some r) = some (update r)

pub find-upsert :
    (update : Row → Row) (new : Row) (group user : String) (rs : List Row)
    → KeepsKey update
    → find group user (upsert update new rs) ≡ (
        if has_key group user new
        then updated update new (find group user rs)
        else find group user rs)
unfolding find upsert
find-upsert update new group user [] k = refl
find-upsert update new group user (r ∷ rs) k = elim (Bool-cases (has_key new.group new.user r)) [
  | inl h ↦ ground (arith, h, same_keys new r group user h, has_key-update update k group user r)
  | inr h ↦ ground (arith, h, other_keys new r group user h, find-upsert update new group user rs k)
]

pub find-uncounted :
    (group user : String) (rs : List Row) → counted group user rs ≡ 0 → find group user rs ≡ none
unfolding find counted
find-uncounted group user [] h = refl
find-uncounted group user (r ∷ rs) h = ground (arith, find-uncounted group user rs)

pub counted-delete :
    (goes : Row → Bool) (group user : String) (rs : List Row)
    → counted group user (delete goes rs) ≤ counted group user rs
unfolding counted delete
counted-delete goes group user [] = omega arith
counted-delete goes group user (r ∷ rs) = ground (arith, counted-delete goes group user rs)

abbrev pub without : (Row → Bool) → Option Row → Option Row
without goes none = none
without goes (some r) = if goes r then none else some r

pub find-delete :
    (goes : Row → Bool) (group user : String) (rs : List Row)
    → counted group user rs ≤ 1
    → find group user (delete goes rs) ≡ without goes (find group user rs)
unfolding find delete counted
find-delete goes group user [] h = refl
find-delete goes group user (r ∷ rs) h = elim (Bool-cases (has_key group user r)) [
  | inl k ↦
      let rest : counted group user rs ≡ 0 = ground (arith, h, k) in
      let gone : find group user (delete goes rs) ≡ none =
        find-uncounted group user (delete goes rs)
          (omega (arith, rest, counted-delete goes group user rs)) in
      ground (arith, k, gone)
  | inr k ↦ ground (arith, k, find-delete goes group user rs (ground (arith, h, k)))
]

pub counted-update_all :
    (named : Row → Bool) (update : Row → Row) (group user : String) (rs : List Row)
    → KeepsKey update
    → counted group user (update_all named update rs) ≡ counted group user rs
unfolding counted update_all
counted-update_all named update group user [] k = refl
counted-update_all named update group user (r ∷ rs) k =
    ground
      (arith, has_key-update update k group user r, counted-update_all named update group user rs k)

pub counted-append :
    (group user : String) (rs ss : List Row)
    → counted group user (rs ++ ss) ≡ counted group user rs + counted group user ss
unfolding counted
counted-append group user [] ss = omega arith
counted-append group user (r ∷ rs) ss = ground (arith, counted-append group user rs ss)
