-- ===== src/GroupMembers.antt =====
-- whatsapp-bridge/group_members_store.go: the table of group members and its five feeds. A statement of
-- SQL is a function on the rows; the stamps are those of `dbTime`, in the order of their times, and the
-- rows of a call are written one after the other. No statement fails.
pub mod Keys
pub mod Lookup
pub mod Roster
pub mod Departure
pub mod Freshness
mod Examples
use whatsapp_mcp.Prelude.{
  ℕ, zero, suc, ◌+◌, max, String, str_eq, Bool, true, false, not, ◌&&◌, ◌||◌, Option, none, some,
  List, [], ◌∷◌, ◌++◌, ltb, leb, if◌then◌else◌,
}

-- Where a row came from.
pub data Source : Type 0 where
  roster : Source
  event : Source
  message : Source

-- `groupMemberRow`
pub record Member : Type 0 where
  pub user : String
  pub phone : String
  pub lid : String
  pub name : String
  pub is_admin : Bool
  pub is_super_admin : Bool

-- A row of `group_members`.
pub record Row : Type 0 where
  pub group : String
  pub user : String
  pub lid : String
  pub phone : String
  pub name : String
  pub is_admin : Bool
  pub is_super_admin : Bool
  pub first_seen : Option ℕ
  pub last_seen : Option ℕ
  pub source : Source

-- The first clauses of `newGroupMemberRow`, from the address forms without their servers.
unfoldable pub new_member : (jid phone lid : String) → Option Member
new_member jid phone lid =
    let user = if not (str_eq phone "") then phone else if not (str_eq lid "") then lid else jid in
    if not (str_eq user "")
    then some (record {
      user = user;
      phone = phone;
      lid = lid;
      name = "";
      is_admin = false;
      is_super_admin = false;
    })
    else none

-- `COALESCE(NULLIF(new, ''), old)`
abbrev pub coalesce : String → String → String
coalesce new old = if str_eq new "" then old else new

abbrev pub has_key : String → String → Row → Bool
has_key group user r = str_eq r.group group && str_eq r.user user

abbrev pub new_row : String → Member → Source → ℕ → Row
new_row group m source stamp = record {
  group = group;
  user = m.user;
  lid = m.lid;
  phone = m.phone;
  name = m.name;
  is_admin = m.is_admin;
  is_super_admin = m.is_super_admin;
  first_seen = some stamp;
  last_seen = some stamp;
  source = source;
}

-- The update of `upsertGroupMemberSQL`.
abbrev pub confirm : Member → Source → ℕ → Row → Row
confirm m source stamp r = record r {
  lid = coalesce m.lid r.lid;
  phone = coalesce m.phone r.phone;
  name = coalesce m.name r.name;
  is_admin = m.is_admin;
  is_super_admin = m.is_super_admin;
  last_seen = some stamp;
  source = source;
}

-- The update of `addGroupMemberSQL`.
abbrev pub rejoin : Member → ℕ → Row → Row
rejoin m stamp r = record r {
  lid = coalesce m.lid r.lid;
  phone = coalesce m.phone r.phone;
  name = coalesce m.name r.name;
  last_seen = some stamp;
}

-- An insert that updates the row of the same key.
unfoldable pub upsert : (Row → Row) → Row → List Row → List Row
upsert update new [] = new ∷ []
upsert update new (r ∷ rs) =
    let rest = upsert update new rs in
    if has_key new.group new.user r then update r ∷ rs else r ∷ rest

unfoldable pub write_roster : String → ℕ → List Member → List Row → List Row
write_roster group now [] rs = rs
write_roster group now (m ∷ ms) rs =
    write_roster group now ms (upsert (confirm m roster now) (new_row group m roster now) rs)

-- The rows without those that a `DELETE` names.
unfoldable pub delete : (Row → Bool) → List Row → List Row
delete goes [] = []
delete goes (r ∷ rs) = let rest = delete goes rs in if goes r then rest else r ∷ rest

abbrev pub is_before : Option ℕ → ℕ → Bool
is_before none stamp = true
is_before (some t) stamp = ltb t stamp

abbrev pub is_dropped : String → ℕ → Row → Bool
is_dropped group now r = str_eq r.group group && is_before r.last_seen now

abbrev pub is_none : List Member → Bool
is_none [] = true
is_none (m ∷ ms) = false

-- `ReplaceGroupRoster`
unfoldable pub replace_roster : String → List Member → ℕ → List Row → List Row
replace_roster group ms now rs =
    if str_eq group "" || is_none ms
    then rs
    else delete (is_dropped group now) (write_roster group now ms rs)

unfoldable pub write_joins : String → ℕ → List Member → List Row → List Row
write_joins group now [] rs = rs
write_joins group now (m ∷ ms) rs =
    write_joins group now ms (upsert (rejoin m now) (new_row group m event now) rs)

-- `AddGroupMembers`
unfoldable pub add_members : String → List Member → ℕ → List Row → List Row
add_members group ms now rs =
    if str_eq group "" || is_none ms then rs else write_joins group now ms rs

abbrev pub is_of : String → Row → Bool
is_of group r = str_eq r.group group

-- `DropGroupRoster`
unfoldable pub drop_roster : String → List Row → List Row
drop_roster group rs = if str_eq group "" then rs else delete (is_of group) rs

-- `memberMatchSQL`
abbrev pub matches : Member → Row → Bool
matches m r =
    str_eq r.user m.user
    || ((not (str_eq r.phone "") && str_eq r.phone m.phone)
        || (not (str_eq r.lid "") && str_eq r.lid m.lid))

abbrev pub leave_clock_skew : ℕ
leave_clock_skew = 300000000000

abbrev pub is_until : Option ℕ → ℕ → Bool
is_until none stamp = true
is_until (some t) stamp = leb t stamp

abbrev pub is_departed : String → Member → ℕ → Row → Bool
is_departed group m stamp r = str_eq r.group group && (matches m r && is_until r.last_seen stamp)

unfoldable pub remove_each : String → ℕ → List Member → List Row → List Row
remove_each group stamp [] rs = rs
remove_each group stamp (m ∷ ms) rs =
    remove_each group stamp ms
      (if str_eq m.user "" then rs else delete (is_departed group m stamp) rs)

-- `RemoveGroupMembers`
unfoldable pub remove_members : String → List Member → ℕ → List Row → List Row
remove_members group ms left_at rs =
    if str_eq group "" || is_none ms
    then rs
    else remove_each group (left_at + leave_clock_skew) ms rs

-- The rows with an `UPDATE` of those that it names.
unfoldable pub update_all : (Row → Bool) → (Row → Row) → List Row → List Row
update_all named update [] = []
update_all named update (r ∷ rs) =
    let rest = update_all named update rs in if named r then update r ∷ rest else r ∷ rest

abbrev pub set_flags : Bool → Row → Row
set_flags is_admin r = record r {
  is_admin = is_admin;
  is_super_admin = if is_admin then r.is_super_admin else false;
}

abbrev pub is_meant : String → Member → Row → Bool
is_meant group m r = str_eq r.group group && matches m r

unfoldable pub set_each : String → Bool → List Member → List Row → List Row
set_each group is_admin [] rs = rs
set_each group is_admin (m ∷ ms) rs =
    set_each group is_admin ms
      (if str_eq m.user "" then rs else update_all (is_meant group m) (set_flags is_admin) rs)

-- `SetGroupMemberAdmin`
unfoldable pub set_admin : String → List Member → Bool → List Row → List Row
set_admin group ms is_admin rs =
    if str_eq group "" || is_none ms then rs else set_each group is_admin ms rs

unfoldable pub any_row : (Row → Bool) → List Row → Bool
any_row p [] = false
any_row p (r ∷ rs) = p r || any_row p rs

-- `NoteGroupParticipant`: an insert where no row matches.
unfoldable pub note_participant : String → Member → ℕ → List Row → List Row
note_participant group m now rs =
    if str_eq group "" || (str_eq m.user "" || any_row (is_meant group m) rs)
    then rs
    else rs
      ++ new_row group (record m { name = ""; is_admin = false; is_super_admin = false }) message
          now
        ∷ []

abbrev pub is_roster : Source → Bool
is_roster roster = true
is_roster event = false
is_roster message = false

abbrev pub later : Option ℕ → Option ℕ → Option ℕ
later none t = t
later (some s) none = some s
later (some s) (some t) = some (max s t)

-- The subquery of `StaleGroupRosters`: when the group's roster was last confirmed.
unfoldable pub refreshed : String → List Row → Option ℕ
refreshed group [] = none
refreshed group (r ∷ rs) =
    let rest = refreshed group rs in
    if str_eq r.group group && is_roster r.source then later r.last_seen rest else rest

abbrev pub is_stale : String → ℕ → List Row → Bool
is_stale group cutoff rs = is_before (refreshed group rs) cutoff

-- The calls of the store.
pub data Feed : Type 0 where
  replaced : String → List Member → ℕ → Feed
  joined : String → List Member → ℕ → Feed
  left : String → List Member → ℕ → Feed
  flagged : String → List Member → Bool → Feed
  spoke : String → Member → ℕ → Feed
  dropped : String → Feed

unfoldable pub feed : Feed → List Row → List Row
feed (replaced group ms now) rs = replace_roster group ms now rs
feed (joined group ms now) rs = add_members group ms now rs
feed (left group ms left_at) rs = remove_members group ms left_at rs
feed (flagged group ms is_admin) rs = set_admin group ms is_admin rs
feed (spoke group m now) rs = note_participant group m now rs
feed (dropped group) rs = drop_roster group rs

unfoldable pub feed_all : List Feed → List Row → List Row
feed_all [] rs = rs
feed_all (f ∷ fs) rs = feed_all fs (feed f rs)
