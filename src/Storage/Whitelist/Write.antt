-- ===== src/Storage/Whitelist/Write.antt =====
-- The statements that change the whitelist. Outside a transaction each statement stands alone.
use dashboard_site.Common.{
  ℕ, suc, String, Bool, ◌&&◌, not, Option, none, some, List, [], ◌∷◌, ◌++◌, map, eqb, leb, false,
  if◌then◌else◌, length, any_where, select_where, count_where, find_where, update_where,
}
use dashboard_site.Models.Address.{Net, InetArg, inet_null}
use dashboard_site.Models.Whitelist.{
  WhitelistEntry, EntryView, WhitelistStatus, EventType, is_active, is_requested, is_blacklisted,
}
use dashboard_site.Storage.Sql.{
  Result, ok, err, failed, duplicate_ip, entry_not_found, no_entries, Sql, pure, raise, query, exec,
  ◌>>=◌, ◌>>◌, transaction,
}
use dashboard_site.Storage.Whitelist.Schema.{
  Tables, restore, has_id, at_address, set_entries, insert_event,
}
use dashboard_site.Storage.Whitelist.Read.{
  with_inet, active_at, user_active_at, duplicates, get_whitelist_entry_by_id,
}

unfoldable pub create_whitelist_event :
    ℕ → String → String → EventType → String → InetArg → Option String → Sql Tables Unit
create_whitelist_event n iss sub type notes client_ip user_agent =
    exec (insert_event n iss sub type (some notes) client_ip user_agent)

-- `UPDATE … SET f WHERE p`, with the number of rows that it affects
unfoldable pub update_entries :
    (WhitelistEntry → Bool) → (ℕ → WhitelistEntry → WhitelistEntry) → Sql Tables ℕ
update_entries p f =
    exec λ t now. set_entries (count_where p t.entries) (update_where p (f now) t.entries) t

abbrev pub set_removed : ℕ → WhitelistEntry → WhitelistEntry
set_removed now e = record e { status = WhitelistStatus.removed; removed_at = some now }

abbrev pub set_added : ℕ → WhitelistEntry → WhitelistEntry
set_added now e = record e { status = WhitelistStatus.added; added_at = some now }

abbrev pub set_blacklisted : String → String → String → ℕ → WhitelistEntry → WhitelistEntry
set_blacklisted iss sub reason now e = record e {
  status = WhitelistStatus.blacklisted_by_admin;
  removed_at = some now;
  removed_by_iss = some iss;
  removed_by_sub = some sub;
  removal_reason = some reason;
}

unfoldable pub remove_ip_from_whitelist :
    ℕ → String → String → InetArg → Option String → Sql Tables Unit
remove_ip_from_whitelist n iss sub client_ip user_agent = do
  affected ← update_entries (has_id n) set_removed
  if eqb affected 0
      then raise entry_not_found
      else create_whitelist_event n iss sub EventType.removed "" client_ip user_agent

unfoldable pub blacklist_ip : ℕ → String → String → String → Sql Tables Unit
blacklist_ip n iss sub reason = do
  affected ← update_entries (has_id n) (set_blacklisted iss sub reason)
  if eqb affected 0
      then raise entry_not_found
      else create_whitelist_event n iss sub EventType.blacklisted_by_admin reason inet_null none

-- `id = ANY($1)`
abbrev pub has_id_in : List ℕ → WhitelistEntry → Bool
has_id_in ns e = any_where (λ n. eqb n e.id) ns

abbrev pub ids : List WhitelistEntry → List ℕ
ids = map (λ e. e.id)

-- one event for each id, until a statement fails
unfoldable pub record_events :
    String → String → EventType → Option String → List ℕ → Sql Tables Unit
record_events iss sub type notes [] = pure tt
record_events iss sub type notes (n ∷ ns) = do
  exec (insert_event n iss sub type notes inet_null none)
  record_events iss sub type notes ns

abbrev pub blacklistable : String → String → WhitelistEntry → Bool
blacklistable uuid ip e = at_address uuid ip e && not (is_blacklisted e.status)

unfoldable pub some_ids : List ℕ → Sql Tables Unit
some_ids [] = raise no_entries
some_ids (n ∷ ns) = pure tt

module _ (net : Net) where
  unfoldable pub blacklist_ip_address : String → String → String → String → String → Sql Tables ℕ
  unfolding some_ids
  blacklist_ip_address uuid ip iss sub reason = transaction restore (do
    found ← query (λ t _.
        with_inet (net.inet_in ip) (λ a. ids (select_where (blacklistable uuid a) t.entries)))
    some_ids found
    update_entries (has_id_in found) (set_blacklisted iss sub reason)
    record_events iss sub EventType.blacklisted_by_admin (some reason) found
    pure (length found))

unfoldable pub mark_ips_as_added : List ℕ → String → String → Sql Tables Unit
mark_ips_as_added ns iss sub = do
  update_entries (λ e. has_id_in ns e && is_requested e.status) set_added
  record_events iss sub EventType.added (some "") ns

abbrev is_past : ℕ → Option ℕ → Bool
is_past now none = false
is_past now (some at) = leb at now

abbrev pub is_expired : ℕ → WhitelistEntry → Bool
is_expired now e = is_active e.status && is_past now e.expires_at

unfoldable pub expire_all : List ℕ → String → String → Sql Tables ℕ
expire_all [] iss sub = pure 0
expire_all (n ∷ ns) iss sub = do
  update_entries (has_id_in (n ∷ ns)) set_removed
  record_events iss sub EventType.expired (some "") (n ∷ ns)
  pure (length (n ∷ ns))

unfoldable pub expire_old_ips : String → String → Sql Tables ℕ
unfolding expire_all
expire_old_ips iss sub = do
  found ← query (λ t now. ok (ids (select_where (is_expired now) t.entries)))
  expire_all found iss sub

-- the arguments of AddIPToWhitelist that the INSERT uses
pub record NewEntry : Type 0 where
  pub owner_iss : String
  pub owner_sub : String
  pub alias_name : String
  pub alias_uuid : String
  pub ip_address : String
  pub description : String
  pub expires_at : Option ℕ

abbrev pub requested_entry : NewEntry → String → ℕ → ℕ → WhitelistEntry
requested_entry a ip n now = record {
  id = n;
  owner_iss = a.owner_iss;
  owner_sub = a.owner_sub;
  alias_name = a.alias_name;
  alias_uuid = a.alias_uuid;
  ip_address = ip;
  description = a.description;
  status = WhitelistStatus.requested;
  requested_at = now;
  added_at = none;
  removed_at = none;
  expires_at = a.expires_at;
  removed_by_iss = none;
  removed_by_sub = none;
  removal_reason = none;
}

unfoldable pub insert_entry : NewEntry → Option String → Tables → ℕ → Result ℕ × Tables
insert_entry a none t now = (err failed, t)
insert_entry a (some ip) t now =
    let n = t.next_id in
    set_entries n (t.entries ++ requested_entry a ip n now ∷ []) (record t { next_id = suc n })

unfoldable pub refuse_duplicate : Option WhitelistEntry → Sql Tables Unit
refuse_duplicate none = pure tt
refuse_duplicate (some e) = raise duplicate_ip

module _ (net : Net) where
  -- The two counts are read and not used.
  unfoldable pub add_ip_to_whitelist : NewEntry → InetArg → Option String → Sql Tables EntryView
  unfolding refuse_duplicate
  add_ip_to_whitelist a client_ip user_agent = do
    n ← transaction restore (do
      query
          (λ t _. ok (count_where (user_active_at a.owner_iss a.owner_sub a.alias_uuid) t.entries))
      query (λ t _. ok (count_where (active_at a.alias_uuid) t.entries))
      existing ← query (λ t _.
          with_inet (net.inet_in a.ip_address)
            (λ ip. find_where (duplicates a.owner_iss a.owner_sub a.alias_uuid ip) t.entries))
      refuse_duplicate existing
      n ← exec (insert_entry a (net.inet_in a.ip_address))
      exec (insert_event n a.owner_iss a.owner_sub EventType.requested none client_ip user_agent)
      pure n)
    get_whitelist_entry_by_id net n
