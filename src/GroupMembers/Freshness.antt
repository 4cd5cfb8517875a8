-- ===== src/GroupMembers/Freshness.antt =====
-- What the freshness of a roster is measured from.
use whatsapp_mcp.Prelude.{
  ℕ, ◌≡◌, refl, ap, ◌∙◌, String, str_eq, Bool, true, false, ◌&&◌, ◌||◌, List, [], ◌∷◌, ◌++◌,
  if_both, arith,
}
use whatsapp_mcp.GroupMembers.{
  Member, Row, update_all, set_flags, is_meant, set_each, set_admin, any_row, is_none,
  note_participant, is_roster, refreshed, is_stale, is_before, Feed, flagged, spoke, feed, feed_all,
}

-- A call that only tells who spoke or who became an admin.
abbrev pub is_chatter : Feed → Bool
is_chatter (Feed.replaced group ms now) = false
is_chatter (Feed.joined group ms now) = false
is_chatter (Feed.left group ms left_at) = false
is_chatter (flagged group ms is_admin) = true
is_chatter (spoke group m now) = true
is_chatter (Feed.dropped group) = false

unfoldable pub all_chatter : List Feed → Bool
all_chatter [] = true
all_chatter (f ∷ fs) = is_chatter f && all_chatter fs

refreshed-update_all :
    (group : String) (named : Row → Bool) (is_admin : Bool) (rs : List Row)
    → refreshed group (update_all named (set_flags is_admin) rs) ≡ refreshed group rs
unfolding refreshed update_all
refreshed-update_all group named is_admin [] = refl
refreshed-update_all group named is_admin (r ∷ rs) =
    ground (arith, refreshed-update_all group named is_admin rs)

refreshed-append :
    (group : String) (new : Row) (rs : List Row)
    → is_roster new.source ≡ false
    → refreshed group (rs ++ new ∷ []) ≡ refreshed group rs
unfolding refreshed
refreshed-append group new [] h = ground (arith, h)
refreshed-append group new (r ∷ rs) h = ground (arith, refreshed-append group new rs h)

refreshed-set_each :
    (group target : String) (is_admin : Bool) (ms : List Member) (rs : List Row)
    → refreshed group (set_each target is_admin ms rs) ≡ refreshed group rs
unfolding set_each
refreshed-set_each group target is_admin [] rs = refl
refreshed-set_each group target is_admin (m ∷ ms) rs =
    refreshed-set_each group target is_admin ms _
    ∙ if_both (λ t. refreshed group t ≡ refreshed group rs) (str_eq m.user "") _ _ (λ _. refl)
        (λ _. refreshed-update_all group (is_meant target m) is_admin rs)

refreshed-feed :
    (group : String) (f : Feed) (rs : List Row)
    → is_chatter f ≡ true
    → refreshed group (feed f rs) ≡ refreshed group rs
unfolding feed set_admin note_participant
refreshed-feed group (Feed.replaced target ms now) rs h = cc
refreshed-feed group (Feed.joined target ms now) rs h = cc
refreshed-feed group (Feed.left target ms left_at) rs h = cc
refreshed-feed group (Feed.dropped target) rs h = cc
refreshed-feed group (flagged target ms is_admin) rs h =
    if_both (λ t. refreshed group t ≡ refreshed group rs) (str_eq target "" || is_none ms) _ _
      (λ _. refl) (λ _. refreshed-set_each group target is_admin ms rs)
refreshed-feed group (spoke target m now) rs h =
    if_both (λ t. refreshed group t ≡ refreshed group rs)
      (str_eq target "" || (str_eq m.user "" || any_row (is_meant target m) rs)) _ _ (λ _. refl)
      (λ _. refreshed-append group _ rs refl)

-- However many messages and changes of admins come in, and in whatever order: no roster counts as
-- confirmed at another time for it, and so none is stale later.
pub refreshed-feed_all :
    (group : String) (cutoff : ℕ) (fs : List Feed) (rs : List Row)
    → all_chatter fs ≡ true
    → (refreshed group (feed_all fs rs) ≡ refreshed group rs)
      × (is_stale group cutoff (feed_all fs rs) ≡ is_stale group cutoff rs)
unfolding feed_all all_chatter
refreshed-feed_all group cutoff [] rs h = (refl, refl)
refreshed-feed_all group cutoff (f ∷ fs) rs h =
    let same : refreshed group (feed_all fs (feed f rs)) ≡ refreshed group rs =
      (refreshed-feed_all group cutoff fs (feed f rs) (ground (arith, h))).0
      ∙ refreshed-feed group f rs (ground (arith, h)) in
    (same, ap (λ t. is_before t cutoff) same)
