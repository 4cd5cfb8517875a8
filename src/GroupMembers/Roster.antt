-- ===== src/GroupMembers/Roster.antt =====
-- The table after a roster was fetched.
use whatsapp_mcp.Prelude.{
  ℕ, ◌≤◌, ◌≡◌, refl, ap, sym, subst, ◌∙◌, String, str_eq, eq_iff, eq_refl, Bool, true, false, ◌&&◌,
  ◌||◌, Option, none, some, List, [], ◌∷◌, ◌==◌, if◌then◌else◌, if_both, arith, Bool-cases, inl,
  inr, ◌⊎◌,
}
use whatsapp_mcp.GroupMembers.{
  Member, roster, Row, has_key, new_row, confirm, write_roster, delete, is_dropped, is_before,
  is_none, is_roster, replace_roster,
}
use whatsapp_mcp.GroupMembers.Lookup.{
  counted, find, key_to, updated, find-upsert, without, find-delete,
}
use whatsapp_mcp.GroupMembers.Keys.{confirm-KeepsKey, write_roster-IsKeyed}

-- What the roster says of one member, in the order of its rows.
unfoldable pub told : String → ℕ → String → List Member → Option Row → Option Row
told group now user [] o = o
told group now user (m ∷ ms) o = told group now user ms (
    if str_eq m.user user then updated (confirm m roster now) (new_row group m roster now) o else o)

unfoldable pub is_listed : String → List Member → Bool
is_listed user [] = false
is_listed user (m ∷ ms) = str_eq m.user user || is_listed user ms

abbrev pub is_at : ℕ → Option ℕ → Bool
is_at now none = false
is_at now (some t) = t == now

-- A row that the roster has just confirmed.
abbrev pub is_fresh : ℕ → Option Row → Bool
is_fresh now none = false
is_fresh now (some r) = is_at now r.last_seen && is_roster r.source

find-write_roster :
    (group : String) (now : ℕ) (ms : List Member) (user : String) (rs : List Row)
    → find group user (write_roster group now ms rs) ≡ told group now user ms (find group user rs)
unfolding write_roster told
find-write_roster group now [] user rs = refl
find-write_roster group now (m ∷ ms) user rs =
    find-write_roster group now ms user _
    ∙ ap (told group now user ms) (
        find-upsert (confirm m roster now) (new_row group m roster now) group user rs
          (confirm-KeepsKey m roster now)
        ∙ ap
            (λ b.
              if b && str_eq m.user user
              then updated (confirm m roster now) (new_row group m roster now) (find group user rs)
              else find group user rs)
            (eq_refl group))

find_other-write_roster :
    (group : String) (now : ℕ) (ms : List Member) (other user : String) (rs : List Row)
    → str_eq group other ≡ false
    → find other user (write_roster group now ms rs) ≡ find other user rs
unfolding write_roster
find_other-write_roster group now [] other user rs h = refl
find_other-write_roster group now (m ∷ ms) other user rs h =
    find_other-write_roster group now ms other user _ h
    ∙ ground (
      arith,
      h,
      find-upsert (confirm m roster now) (new_row group m roster now) other user rs
          (confirm-KeepsKey m roster now),
    )

find_other-delete :
    (group : String) (now : ℕ) (other user : String) (rs : List Row)
    → str_eq group other ≡ false
    → find other user (delete (is_dropped group now) rs) ≡ find other user rs
unfolding find delete
find_other-delete group now other user [] h = refl
find_other-delete group now other user (r ∷ rs) h = elim (Bool-cases (has_key other user r)) [
  | inl k ↦
      let apart : str_eq r.group group ≡ false = elim (Bool-cases (str_eq r.group group)) [
        | inl e ↦
            let same : str_eq group other ≡ true =
              (eq_iff group other).1
                (sym ((eq_iff r.group group).0 e) ∙ (key_to other user r k).0) in
            cc
        | inr e ↦ e
      ] in
      ground (arith, k, apart)
  | inr k ↦ ground (arith, k, find_other-delete group now other user rs h)
]

is_fresh-updated :
    (group : String) (m : Member) (now : ℕ) (o : Option Row)
    → is_fresh now (updated (confirm m roster now) (new_row group m roster now) o) ≡ true
is_fresh-updated group m now none = ground arith
is_fresh-updated group m now (some r) = ground arith

is_fresh-told :
    (group : String) (now : ℕ) (user : String) (ms : List Member) (o : Option Row)
    → is_fresh now o ≡ true
    → is_fresh now (told group now user ms o) ≡ true
unfolding told
is_fresh-told group now user [] o h = h
is_fresh-told group now user (m ∷ ms) o h = is_fresh-told group now user ms _ (
    if_both (λ o. is_fresh now o ≡ true) (str_eq m.user user) _ _
      (λ _. is_fresh-updated group m now o) (λ _. h))

listed_fresh :
    (group : String) (now : ℕ) (user : String) (ms : List Member) (o : Option Row)
    → is_listed user ms ≡ true
    → is_fresh now (told group now user ms o) ≡ true
unfolding told is_listed
listed_fresh group now user [] o h = cc
listed_fresh group now user (m ∷ ms) o h =
    if_both (λ o. is_fresh now (told group now user ms o) ≡ true) (str_eq m.user user) _ _
      (λ _. is_fresh-told group now user ms _ (is_fresh-updated group m now o))
      (λ n. listed_fresh group now user ms o (ground (arith, n, h)))

unlisted_told :
    (group : String) (now : ℕ) (user : String) (ms : List Member) (o : Option Row)
    → is_listed user ms ≡ false
    → told group now user ms o ≡ o
unfolding told is_listed
unlisted_told group now user [] o h = refl
unlisted_told group now user (m ∷ ms) o h = ground (arith, h, unlisted_told group now user ms o)

last_seen_late : (now : ℕ) (t : Option ℕ) → (is_at now t && is_before t now) ≡ false
last_seen_late now none = refl
last_seen_late now (some t) = ground arith

without_fresh :
    (group : String) (now : ℕ) (o : Option Row)
    → is_fresh now o ≡ true
    → without (is_dropped group now) o ≡ o
without_fresh group now none h = refl
without_fresh group now (some r) h = ground (arith, last_seen_late now r.last_seen)

find-replace_all :
    (group : String) (now : ℕ) (ms : List Member) (user : String) (rs : List Row)
    → ((g u : String) → counted g u rs ≤ 1)
    → find group user (delete (is_dropped group now) (write_roster group now ms rs))
      ≡ without (is_dropped group now) (told group now user ms (find group user rs))
find-replace_all group now ms user rs w =
    find-delete (is_dropped group now) group user (write_roster group now ms rs)
      (write_roster-IsKeyed group now ms rs w group user)
    ∙ ap (without (is_dropped group now)) (find-write_roster group now ms user rs)

replace_roster-delete :
    (group : String) (ms : List Member) (now : ℕ) (rs : List Row)
    → str_eq group "" ≡ false
    → is_none ms ≡ false
    → replace_roster group ms now rs ≡ delete (is_dropped group now) (write_roster group now ms rs)
unfolding replace_roster
replace_roster-delete group ms now rs named some_member = ground (arith, named, some_member)

find_other-replace_roster :
    (group : String) (ms : List Member) (now : ℕ) (rs : List Row) (other user : String)
    → str_eq group other ≡ false
    → find other user (replace_roster group ms now rs) ≡ find other user rs
unfolding replace_roster
find_other-replace_roster group ms now rs other user h =
    if_both (λ t. find other user t ≡ find other user rs) (str_eq group "" || is_none ms) _ _
      (λ _. refl)
      (λ _.
        find_other-delete group now other user _ h
        ∙ find_other-write_roster group now ms other user rs h)

-- After a roster with a member was written, in a table with at most one row for each member of a group:
-- a member that it lists has the row that the roster tells, confirmed at this time by a roster; another
-- member of the group has its old row, where that was not confirmed before this time, and no row
-- otherwise; the rows of another group are as they were.
pub find-replace_roster :
    (group : String) (ms : List Member) (now : ℕ) (rs : List Row) (user other : String)
    → str_eq group "" ≡ false
    → is_none ms ≡ false
    → ((g u : String) → counted g u rs ≤ 1)
    → (((is_listed user ms ≡ true)
          × ((find group user (replace_roster group ms now rs)
                ≡ told group now user ms (find group user rs))
              × (is_fresh now (find group user (replace_roster group ms now rs)) ≡ true)))
        ⊎ ((is_listed user ms ≡ false)
            × (find group user (replace_roster group ms now rs)
                ≡ without (is_dropped group now) (find group user rs))))
      × ((group ≡ other) ⊎ (find other user (replace_roster group ms now rs) ≡ find other user rs))
find-replace_roster group ms now rs user other named some_member w =
    let o = find group user rs in
    let found : find group user (replace_roster group ms now rs)
        ≡ without (is_dropped group now) (told group now user ms o) =
      ap (find group user) (replace_roster-delete group ms now rs named some_member)
      ∙ find-replace_all group now ms user rs w in
    let elsewhere : (group ≡ other)
        ⊎ (find other user (replace_roster group ms now rs) ≡ find other user rs) =
      elim (Bool-cases (str_eq group other)) [
        | inl h ↦ inl ((eq_iff group other).0 h)
        | inr h ↦ inr (find_other-replace_roster group ms now rs other user h)
      ] in
    (
      elim (Bool-cases (is_listed user ms)) [
        | inl h ↦
            let fresh = listed_fresh group now user ms o h in
            let all : find group user (replace_roster group ms now rs) ≡ told group now user ms o =
              found ∙ without_fresh group now (told group now user ms o) fresh in
            inl (h, (all, subst (λ x. is_fresh now x ≡ true) (sym all) fresh))
        | inr h ↦
            inr
              (h, found ∙ ap (without (is_dropped group now)) (unlisted_told group now user ms o h))
      ],
      elsewhere,
    )
