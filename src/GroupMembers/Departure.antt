-- ===== src/GroupMembers/Departure.antt =====
-- A departure that WhatsApp tells again does not undo a later roster.
use whatsapp_mcp.Prelude.{
  ℕ, ◌+◌, ◌≤◌, ◌<◌, ◌≡◌, refl, sym, subst, ◌∙◌, String, str_eq, true, false, ◌&&◌, ◌||◌, Option,
  none, some, List, [], ◌∷◌, if_both, arith, inl, inr,
}
use whatsapp_mcp.GroupMembers.{
  Member, Row, delete, is_until, is_departed, is_none, remove_each, remove_members,
  leave_clock_skew, replace_roster,
}
use whatsapp_mcp.GroupMembers.Lookup.{counted, find, without, find-delete}
use whatsapp_mcp.GroupMembers.Keys.{IsKeyed, delete-IsKeyed, replace_roster-IsKeyed}
use whatsapp_mcp.GroupMembers.Roster.{is_listed, is_at, is_fresh, find-replace_roster}

until_late :
    (stamp now : ℕ) (t : Option ℕ) → stamp < now → (is_at now t && is_until t stamp) ≡ false
until_late stamp now none l = refl
until_late stamp now (some t) l = ground arith

listed_some : (user : String) (ms : List Member) → is_listed user ms ≡ true → is_none ms ≡ false
unfolding is_listed
listed_some user [] h = cc
listed_some user (m ∷ ms) h = refl

fresh_stays :
    (group : String) (m : Member) (stamp now : ℕ) (o : Option Row)
    → stamp < now
    → is_fresh now o ≡ true
    → without (is_departed group m stamp) o ≡ o
fresh_stays group m stamp now none l h = refl
fresh_stays group m stamp now (some r) l h = ground (arith, h, until_late stamp now r.last_seen l)

find-remove_each :
    (group other user : String) (stamp now : ℕ) (ms : List Member) (rs : List Row)
    → stamp < now
    → IsKeyed rs
    → is_fresh now (find other user rs) ≡ true
    → find other user (remove_each group stamp ms rs) ≡ find other user rs
unfolding remove_each
find-remove_each group other user stamp now [] rs l w h = refl
find-remove_each group other user stamp now (m ∷ ms) rs l w h =
    if_both (λ t. find other user (remove_each group stamp ms t) ≡ find other user rs)
      (str_eq m.user "") _ _ (λ _. find-remove_each group other user stamp now ms rs l w h)
      (λ _.
        let same : find other user (delete (is_departed group m stamp) rs) ≡ find other user rs =
          find-delete (is_departed group m stamp) other user rs (w other user)
          ∙ fresh_stays group m stamp now (find other user rs) l h in
        find-remove_each group other user stamp now ms _ l
          (delete-IsKeyed (is_departed group m stamp) rs w)
          (subst (λ o. is_fresh now o ≡ true) (sym same) h)
        ∙ same)

-- After a roster that lists the member, a departure of before, by more than the skew that is granted to
-- the clocks, leaves the member's row as the roster wrote it, whoever the departure names.
pub remove_members-replace_roster :
    (group user : String) (ms gone : List Member) (now left_at : ℕ) (rs : List Row)
    → str_eq group "" ≡ false
    → is_listed user ms ≡ true
    → ((g u : String) → counted g u rs ≤ 1)
    → left_at + leave_clock_skew < now
    → (find group user (remove_members group gone left_at (replace_roster group ms now rs))
        ≡ find group user (replace_roster group ms now rs))
      × (is_fresh now (find group user (replace_roster group ms now rs)) ≡ true)
unfolding remove_members
remove_members-replace_roster group user ms gone now left_at rs named listed w l =
    let fresh : is_fresh now (find group user (replace_roster group ms now rs)) ≡ true =
      elim ((find-replace_roster group ms now rs user user named (listed_some user ms listed)
        w).0) [
          | inl yes_listed ↦ (yes_listed.1).1
          | inr not_listed ↦ ground (arith, listed, not_listed.0)
        ] in
    (
      if_both (λ t. find group user t ≡ find group user (replace_roster group ms now rs))
          (str_eq group "" || is_none gone) _ _ (λ _. refl)
          (λ _.
            find-remove_each group group user (left_at + leave_clock_skew) now gone _ l
              (replace_roster-IsKeyed group ms now rs w) fresh),
      fresh,
    )
