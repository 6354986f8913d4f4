-- ===== src/PoolManager/Connections.antt =====
-- The list of connections and the active one: `addConnection`, `removeConnection`,
-- `setActiveConnection` and `getActiveConnection` of libpoolprotocols/PoolManager.cpp. The comparison
-- of texts that ignores case, `boost::iequals`, is a parameter.
use quai_gpu_miner_archive.PoolManager.{
  Uri, Text, Manager, Outcome, disconnect, count_switch, erase_at, outstanding_operations,
  index_out_of_bounds, not_found, cant_remove_active,
}
use quai_gpu_miner_archive.Prelude.{
  ℕ, ◌+◌, ◌-◌, Bool, true, Option, none, some, List, [], ◌∷◌, ◌++◌, ltb, leb, ◌==◌, if◌then◌else◌,
  length, get_elem?,
}

unfoldable pub add_connection : Uri → Manager → Manager
add_connection uri m = record m { connections = m.connections ++ (uri ∷ []) }

unfoldable pub remove_connection : ℕ → Manager → Outcome
remove_connection idx m =
    if m.async_pending
    then (some outstanding_operations, m)
    else if leb (length m.connections) idx
    then (some index_out_of_bounds, m)
    else if idx == m.active_connection_idx
    then (some cant_remove_active, m)
    else (
      none,
      record m {
        connections = erase_at idx m.connections;
        active_connection_idx =
            if ltb idx m.active_connection_idx
            then m.active_connection_idx - 1
            else m.active_connection_idx;
      },
    )

unfoldable pub set_active_connection_common : ℕ → Manager → Outcome
set_active_connection_common idx m =
    if m.async_pending
    then (some outstanding_operations, m)
    else if idx == m.active_connection_idx
    then (none, m)
    else disconnect (record (count_switch m) {
      async_pending = true;
      active_connection_idx = idx;
      connection_attempt = 0;
    })

unfoldable pub set_active_connection : ℕ → Manager → Outcome
set_active_connection idx m =
    if leb (length m.connections) idx
    then (some index_out_of_bounds, m)
    else set_active_connection_common idx m

unfoldable pub get_active_connection : Manager → Option Uri
get_active_connection m = get_elem? m.connections m.active_connection_idx

module _ (iequals : Text → Text → Bool) (connstring : Text) where
  -- The index of the first connection from `idx` on that has the text.
  unfoldable pub first_match : ℕ → List Uri → Option ℕ
  first_match idx [] = none
  first_match idx (uri ∷ uris) =
      let rest = first_match (idx + 1) uris in if iequals uri.str connstring then some idx else rest

  -- `found` is never set, so that the call ends with "Not found." wherever it does not end sooner.
  unfoldable pub set_active_connection_string : Manager → Outcome
  set_active_connection_string m = elim (first_match 0 m.connections) [
    | none ↦ (some not_found, m)
    | some idx ↦
        let (error, after) = set_active_connection_common idx m in
        elim error [ some e ↦ (some e, after) | none ↦ (some not_found, after) ]
  ]
