-- ===== src/Nginx/Plan.antt =====
-- What `SyncUpstream` of internal/adapters/loadbalancer/nginx/nginx.go decides to add and to remove.
use mlb_controller.Base.{
  Bool, true, false, not, ◌&&◌, List, [], ◌∷◌, Option, none, some, Str, ◌==◌, str_eq, int_eq,
  nat_eq, if◌then◌else◌, ℤ, pos, ltb_ℤ, ltb, add64, is_some, length, is_empty, str_order,
}
use mlb_controller.Base.GoMap
use mlb_controller.Base.GoMap.{GoMap}
use mlb_controller.Base.Sort
use mlb_controller.Domain.Model.{Backend}
use mlb_controller.Nginx.Address.{same_backend, backend_key}
pub mod Totals
pub mod Laws
pub mod Order
pub mod Idle

-- A weight below 1 counts as 1.
unfoldable pub weight_to_add : ℤ → ℤ
weight_to_add w = if ltb_ℤ w (pos 1) then pos 1 else w

-- A further backend at the same key adds its weight to the first.
unfoldable pub join_backend : Option Backend → Backend → Backend
unfolding weight_to_add
join_backend none db = record db { weight = weight_to_add db.weight }
join_backend (some tmpdb) db = record tmpdb {
  weight = add64 tmpdb.weight (weight_to_add db.weight);
}

-- The loop that fills `desiredBackend`.
unfoldable pub aggregate : List Backend → GoMap Backend → GoMap Backend
unfolding join_backend
aggregate [] desired = desired
aggregate (db ∷ dbs) desired = aggregate dbs (
    GoMap.insert (backend_key db) (join_backend (GoMap.lookup (backend_key db) desired) db) desired)

-- The servers of the upstream, also where the answer lists one upstream without a name.
unfoldable pub current_backends : Str → GoMap (List Backend) → List Backend
current_backends name all =
    if is_empty (GoMap.index [] name all)
      && length all == 1
      && not (is_empty (GoMap.index [] [] all))
    then GoMap.index [] [] all
    else GoMap.index [] name all

unfoldable pub find_same : Backend → List Backend → Option Backend
find_same db [] = none
find_same db (cb ∷ cbs) = if same_backend db cb then some cb else find_same db cbs

abbrev needs_update : Backend → Option Backend → Bool
needs_update db none = true
needs_update db (some cb) = not (cb.weight == db.weight)

-- The entries of `updateBackends`: one for each key of `desiredBackend`, which differ.
unfoldable pub update_backends : List Backend → GoMap Backend → GoMap Backend
unfolding find_same
update_backends current [] = []
update_backends current ((key, db) ∷ m) =
    let rest = update_backends current m in
    if needs_update db (find_same db current) then (key, db) ∷ rest else rest

-- The loop that fills `removeBackends`.
unfoldable pub remove_backends : GoMap Backend → List Backend → GoMap Backend → GoMap Backend
remove_backends desired [] m = m
remove_backends desired (cb ∷ cbs) m = remove_backends desired cbs (
    if not (is_some (GoMap.lookup (backend_key cb) desired))
    then GoMap.insert (backend_key cb) cb m
    else m)

-- The entries in the order of their sorted keys.
unfoldable pub in_order : GoMap Backend → GoMap Backend
unfolding Sort.sort
in_order m = Sort.sort str_order (λ e. e.0) m
