-- ===== src/GroupMembers/Examples.antt =====
-- Runs of the feeds on a group with two members.
use whatsapp_mcp.Prelude.{
  ℕ, ◌*◌, ◌≤◌, ◌≡◌, refl, arith, String, Bool, true, false, List, [], ◌∷◌, none, some, ◌⊎◌,
}
use whatsapp_mcp.GroupMembers.{
  Member, Row, upsert, write_joins, add_members, replace_roster, write_roster, delete, is_dropped,
  remove_members, Feed, replaced, joined, left, flagged, spoke, feed, feed_all, refreshed, is_stale,
}
use whatsapp_mcp.GroupMembers.Lookup.{counted, find, without}
use whatsapp_mcp.GroupMembers.Keys.{counted-feed_all}
use whatsapp_mcp.GroupMembers.Roster.{told, is_listed, is_fresh, find-replace_roster}
use whatsapp_mcp.GroupMembers.Departure.{remove_members-replace_roster}
use whatsapp_mcp.GroupMembers.Freshness.{all_chatter, refreshed-feed_all}

abbrev here : String
here = "g"

abbrev there : String
there = "h"

abbrev member : String → Bool → Member
member user is_admin = record {
  user = user;
  phone = user;
  lid = "";
  name = "";
  is_admin = is_admin;
  is_super_admin = false;
}

abbrev ann : Member
ann = member "15550001" true

abbrev bob : Member
bob = member "15550002" false

abbrev minute : ℕ
minute = 60000000000

empty_keyed : (g u : String) → counted g u [] ≤ 1
unfolding counted
empty_keyed g u = omega arith

abbrev feeds : List Feed
feeds =
    replaced "g" (ann ∷ bob ∷ []) minute
    ∷ joined "g" (bob ∷ []) (2 * minute)
    ∷ spoke "g" ann (3 * minute)
    ∷ left "g" (bob ∷ []) (4 * minute)
    ∷ flagged "g" (ann ∷ []) false
    ∷ []

abbrev both : List Row
both = replace_roster "g" (ann ∷ bob ∷ []) minute []

both_keyed : (g u : String) → counted g u both ≤ 1
unfolding feed_all feed
both_keyed g u = counted-feed_all (replaced "g" (ann ∷ bob ∷ []) minute ∷ []) [] g u empty_keyed

-- Bob is dropped by a roster that lists Ann alone.
bob_dropped : find "g" "15550002" (replace_roster "g" (ann ∷ []) (2 * minute) both) ≡ none
unfolding find replace_roster write_roster upsert delete
bob_dropped = refl

find-replace_roster_example :
    (((is_listed "15550002" (ann ∷ []) ≡ true)
        × ((find "g" "15550002" (replace_roster "g" (ann ∷ []) (2 * minute) both)
              ≡ told "g" (2 * minute) "15550002" (ann ∷ []) (find "g" "15550002" both))
            × (is_fresh
                  (2 * minute)
                  (find "g" "15550002" (replace_roster "g" (ann ∷ []) (2 * minute) both))
                ≡ true)))
      ⊎ ((is_listed "15550002" (ann ∷ []) ≡ false)
          × (find "g" "15550002" (replace_roster "g" (ann ∷ []) (2 * minute) both)
              ≡ without (is_dropped "g" (2 * minute)) (find "g" "15550002" both))))
    × ((here ≡ there)
        ⊎ (find "h" "15550002" (replace_roster "g" (ann ∷ []) (2 * minute) both)
            ≡ find "h" "15550002" both))
find-replace_roster_example =
    find-replace_roster here (ann ∷ []) (2 * minute) both "15550002" there refl refl both_keyed

bob_listed : is_listed "15550002" (ann ∷ bob ∷ []) ≡ true
unfolding is_listed
bob_listed = refl

remove_members-replace_roster_example :
    (find "g" "15550002" (
        remove_members "g"
          (bob ∷ [])
          minute
          (replace_roster "g" (ann ∷ bob ∷ []) (7 * minute) both))
      ≡ find "g" "15550002" (replace_roster "g" (ann ∷ bob ∷ []) (7 * minute) both))
    × (is_fresh
          (7 * minute)
          (find "g" "15550002" (replace_roster "g" (ann ∷ bob ∷ []) (7 * minute) both))
        ≡ true)
remove_members-replace_roster_example =
    remove_members-replace_roster "g" "15550002" (ann ∷ bob ∷ []) (bob ∷ []) (7 * minute) minute
      both refl bob_listed both_keyed (omega arith)

chatter :
    all_chatter
      (spoke "g" (member "15550003" false) (9 * minute) ∷ flagged "g" (bob ∷ []) true ∷ [])
    ≡ true
unfolding all_chatter
chatter = refl

refreshed-feed_all_example :
    (refreshed "g" (
        feed_all
          (spoke "g" (member "15550003" false) (9 * minute) ∷ flagged "g" (bob ∷ []) true ∷ [])
          both)
      ≡ refreshed "g" both)
    × (is_stale "g" (8 * minute) (
          feed_all
            (spoke "g" (member "15550003" false) (9 * minute) ∷ flagged "g" (bob ∷ []) true ∷ [])
            both)
        ≡ is_stale "g" (8 * minute) both)
refreshed-feed_all_example =
    refreshed-feed_all "g" (8 * minute)
      (spoke "g" (member "15550003" false) (9 * minute) ∷ flagged "g" (bob ∷ []) true ∷ []) both
      chatter

-- One join of a member that the roster has makes the whole roster look fresh.
join_freshens : refreshed "g" (add_members "g" (bob ∷ []) (9 * minute) both) ≡ some (9 * minute)
unfolding refreshed add_members write_joins replace_roster write_roster upsert delete
join_freshens = refl
