-- ===== src/GroupMembers/Keys.antt =====
-- The primary key of the table.
use whatsapp_mcp.Prelude.{
  ℕ, ◌+◌, ◌≤◌, ◌≡◌, refl, subst, String, str_eq, Bool, false, ◌||◌, List, [], ◌∷◌, ◌++◌, if_both,
  arith, Bool-cases, inl, inr,
}
use whatsapp_mcp.GroupMembers.{
  Member, Source, roster, Row, has_key, confirm, rejoin, upsert, write_roster, delete, is_dropped,
  is_none, replace_roster, write_joins, add_members, is_of, drop_roster, is_departed, remove_each,
  remove_members, leave_clock_skew, set_flags, is_meant, set_each, set_admin, any_row,
  note_participant, Feed, replaced, joined, left, flagged, spoke, dropped, feed, feed_all,
}
use whatsapp_mcp.GroupMembers.Lookup.{
  counted, KeepsKey, key_to, counted-upsert, counted-delete, counted-update_all, counted-append,
}

-- At most one row for each member of a group.
abbrev pub IsKeyed : List Row → Type 0
IsKeyed rs = (group user : String) → counted group user rs ≤ 1

pub confirm-KeepsKey : (m : Member) (s : Source) (now : ℕ) → KeepsKey (confirm m s now)
confirm-KeepsKey m s now = record { same_group = λ r. refl; same_user = λ r. refl }

rejoin-KeepsKey : (m : Member) (now : ℕ) → KeepsKey (rejoin m now)
rejoin-KeepsKey m now = record { same_group = λ r. refl; same_user = λ r. refl }

set_flags-KeepsKey : (b : Bool) → KeepsKey (set_flags b)
set_flags-KeepsKey b = record { same_group = λ r. refl; same_user = λ r. refl }

upsert-IsKeyed :
    (update : Row → Row) (new : Row) (rs : List Row)
    → KeepsKey update
    → IsKeyed rs
    → IsKeyed (upsert update new rs)
upsert-IsKeyed update new rs k w group user =
    ground (arith, counted-upsert update new group user rs k, w group user)

pub delete-IsKeyed : (goes : Row → Bool) (rs : List Row) → IsKeyed rs → IsKeyed (delete goes rs)
delete-IsKeyed goes rs w group user = omega (arith, counted-delete goes group user rs, w group user)

pub write_roster-IsKeyed :
    (group : String) (now : ℕ) (ms : List Member) (rs : List Row)
    → IsKeyed rs
    → IsKeyed (write_roster group now ms rs)
unfolding write_roster
write_roster-IsKeyed group now [] rs w = w
write_roster-IsKeyed group now (m ∷ ms) rs w =
    write_roster-IsKeyed group now ms _ (upsert-IsKeyed _ _ rs (confirm-KeepsKey m roster now) w)

write_joins-IsKeyed :
    (group : String) (now : ℕ) (ms : List Member) (rs : List Row)
    → IsKeyed rs
    → IsKeyed (write_joins group now ms rs)
unfolding write_joins
write_joins-IsKeyed group now [] rs w = w
write_joins-IsKeyed group now (m ∷ ms) rs w =
    write_joins-IsKeyed group now ms _ (upsert-IsKeyed _ _ rs (rejoin-KeepsKey m now) w)

remove_each-IsKeyed :
    (group : String) (stamp : ℕ) (ms : List Member) (rs : List Row)
    → IsKeyed rs
    → IsKeyed (remove_each group stamp ms rs)
unfolding remove_each
remove_each-IsKeyed group stamp [] rs w = w
remove_each-IsKeyed group stamp (m ∷ ms) rs w = remove_each-IsKeyed group stamp ms _ (
    if_both IsKeyed (str_eq m.user "") _ _ (λ _. w)
      (λ _. delete-IsKeyed (is_departed group m stamp) rs w))

set_each-IsKeyed :
    (group : String) (b : Bool) (ms : List Member) (rs : List Row)
    → IsKeyed rs
    → IsKeyed (set_each group b ms rs)
unfolding set_each
set_each-IsKeyed group b [] rs w = w
set_each-IsKeyed group b (m ∷ ms) rs w = set_each-IsKeyed group b ms _ (
    if_both IsKeyed (str_eq m.user "") _ _ (λ _. w)
      (λ _. λ g u. omega (
        arith,
        counted-update_all (is_meant group m) (set_flags b) g u rs (set_flags-KeepsKey b),
        w g u,
      )))

-- A key that no row matches is free.
free_key :
    (group : String) (m : Member) (rs : List Row)
    → any_row (is_meant group m) rs ≡ false
    → counted group m.user rs ≡ 0
unfolding any_row counted
free_key group m [] h = refl
free_key group m (r ∷ rs) h = ground (arith, free_key group m rs)

alone :
    (new : Row) (group user : String) (rs : List Row)
    → counted new.group new.user rs ≡ 0
    → counted group user rs ≤ 1
    → counted group user (rs ++ new ∷ []) ≤ 1
unfolding counted
alone new group user rs free w = elim (Bool-cases (has_key group user new)) [
  | inl h ↦
      let k = key_to group user new h in
      let none_there : counted group user rs ≡ 0 =
        subst (λ u. counted group u rs ≡ 0) (k.1)
          (subst (λ g. counted g new.user rs ≡ 0) (k.0) free) in
      ground (arith, counted-append group user rs (new ∷ []), none_there)
  | inr h ↦ ground (arith, counted-append group user rs (new ∷ []), h, w)
]

note_participant-IsKeyed :
    (group : String) (m : Member) (now : ℕ) (rs : List Row)
    → IsKeyed rs
    → IsKeyed (note_participant group m now rs)
unfolding note_participant
note_participant-IsKeyed group m now rs w =
    if_both IsKeyed (str_eq group "" || (str_eq m.user "" || any_row (is_meant group m) rs)) _ _
      (λ _. w) (λ h. λ g u. alone _ g u rs (free_key group m rs (ground (arith, h))) (w g u))

pub replace_roster-IsKeyed :
    (group : String) (ms : List Member) (now : ℕ) (rs : List Row)
    → IsKeyed rs
    → IsKeyed (replace_roster group ms now rs)
unfolding replace_roster
replace_roster-IsKeyed group ms now rs w =
    if_both IsKeyed (str_eq group "" || is_none ms) _ _ (λ _. w)
      (λ _. delete-IsKeyed (is_dropped group now) _ (write_roster-IsKeyed group now ms rs w))

feed-IsKeyed : (f : Feed) (rs : List Row) → IsKeyed rs → IsKeyed (feed f rs)
unfolding feed add_members remove_members set_admin drop_roster
feed-IsKeyed (replaced group ms now) rs w = replace_roster-IsKeyed group ms now rs w
feed-IsKeyed (joined group ms now) rs w =
    if_both IsKeyed (str_eq group "" || is_none ms) _ _ (λ _. w)
      (λ _. write_joins-IsKeyed group now ms rs w)
feed-IsKeyed (left group ms left_at) rs w =
    if_both IsKeyed (str_eq group "" || is_none ms) _ _ (λ _. w)
      (λ _. remove_each-IsKeyed group (left_at + leave_clock_skew) ms rs w)
feed-IsKeyed (flagged group ms b) rs w =
    if_both IsKeyed (str_eq group "" || is_none ms) _ _ (λ _. w)
      (λ _. set_each-IsKeyed group b ms rs w)
feed-IsKeyed (spoke group m now) rs w = note_participant-IsKeyed group m now rs w
feed-IsKeyed (dropped group) rs w =
    if_both IsKeyed (str_eq group "") _ _ (λ _. w) (λ _. delete-IsKeyed (is_of group) rs w)

feed_all-IsKeyed : (fs : List Feed) (rs : List Row) → IsKeyed rs → IsKeyed (feed_all fs rs)
unfolding feed_all
feed_all-IsKeyed [] rs w = w
feed_all-IsKeyed (f ∷ fs) rs w = feed_all-IsKeyed fs (feed f rs) (feed-IsKeyed f rs w)

pub counted-feed_all :
    (fs : List Feed) (rs : List Row) (group user : String)
    → ((g u : String) → counted g u rs ≤ 1)
    → counted group user (feed_all fs rs) ≤ 1
counted-feed_all fs rs group user w = feed_all-IsKeyed fs rs w group user
