-- ===== src/Database/Actions.antt =====
-- plane/src/database/backend_actions.rs: the actions that a drone has to take and has not
-- acknowledged. Of actions that were created at the same time the one inserted first comes first.
pub mod Pending
use plane.Prelude.{
  Bool, List, [], filterb, if◌then◌else◌, is_some, leb, none, not, some, take, ℕ, ◌&&◌, ◌++◌, ◌==◌,
  ◌∷◌,
}
use plane.Prelude.Rows.{update_where}
use plane.Protocol.{BackendAction}
use plane.Database.{ActionRow, Database}

abbrev pub is_action : ℕ → ℕ → ActionRow → Bool
is_action id drone row = row.id == id && row.drone_id == drone

unfoldable pub ack_pending_action : ℕ → ℕ → ℕ → Database → Database
unfolding update_where
ack_pending_action now id drone db = record db {
  backend_action =
      update_where (is_action id drone) (λ row. record row { acked_at = some now })
        db.backend_action;
}

abbrev pub is_pending : ℕ → ActionRow → Bool
is_pending drone row = row.drone_id == drone && not (is_some row.acked_at)

-- `order by created_at asc`
unfoldable pub insert_by_time : ActionRow → List ActionRow → List ActionRow
insert_by_time row [] = row ∷ []
insert_by_time row (r ∷ rs) =
    let rest = insert_by_time row rs in
    if leb row.created_at r.created_at then row ∷ r ∷ rs else r ∷ rest

unfoldable pub sort_by_time : List ActionRow → List ActionRow
unfolding insert_by_time
sort_by_time [] = []
sort_by_time (row ∷ rows) = insert_by_time row (sort_by_time rows)

unfoldable pub pending_actions : ℕ → ℕ → Database → List ActionRow
unfolding filterb sort_by_time
pending_actions drone limit db =
    take limit (sort_by_time (filterb (is_pending drone) db.backend_action))

-- The row, which is also the message that is emitted to the drone's key.
abbrev pub new_action : ℕ → ℕ → ℕ → ℕ → BackendAction → ActionRow
new_action now id backend drone action = record {
  id = id;
  backend_id = backend;
  drone_id = drone;
  action = action;
  created_at = now;
  acked_at = none;
}

-- `id` is the random id of the action.
unfoldable pub create_pending_action :
    ℕ → ℕ → ℕ → ℕ → BackendAction → Database → ActionRow × Database
create_pending_action now id backend drone action db = (
  new_action now id backend drone action,
  record db { backend_action = db.backend_action ++ new_action now id backend drone action ∷ [] },
)
