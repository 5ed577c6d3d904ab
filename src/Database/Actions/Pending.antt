-- ===== src/Database/Actions/Pending.antt =====
-- An action is sent again and again until its drone acknowledges it
-- (plane/src/database/backend_actions.rs), or a clean-up deletes its backend.
use plane.Prelude.{
  Bool-cases, inl, inr, subst, sym, ==_iff, Bool, List, [], ap, arith, filterb, length, refl, suc,
  take, zero, ℕ, ◌&&◌, ◌==◌, ◌||◌, ◌∙◌, ◌∷◌, ◌≡◌, ◌≤◌, false, some, true, ◌++◌, ==_refl, All,
}
use plane.Prelude.Rows.{any-filterb, any_where, delete_where, update_where}
use plane.Protocol.{BackendAction}
use plane.Database.{ActionRow, BackendRow, Database}
use plane.Database.Cleanup.{delete_backends, has_row}
use plane.Database.Actions.{
  insert_by_time, is_pending, pending_actions, sort_by_time, create_pending_action, is_action,
  new_action, ack_pending_action,
}

-- The action with this id, for this backend.
abbrev pub is_for : ℕ → ℕ → ActionRow → Bool
is_for id b row = row.id == id && row.backend_id == b

any-insert :
    (p : ActionRow → Bool) (row : ActionRow) (rows : List ActionRow)
    → any_where p (insert_by_time row rows) ≡ (p row || any_where p rows)
unfolding any_where insert_by_time
any-insert p row [] = refl
any-insert p row (r ∷ rs) = ground (arith, any-insert p row rs)

any-sort :
    (p : ActionRow → Bool) (rows : List ActionRow)
    → any_where p (sort_by_time rows) ≡ any_where p rows
unfolding any_where sort_by_time
any-sort p [] = refl
any-sort p (row ∷ rows) =
    any-insert p row (sort_by_time rows) ∙ ap (λ b. p row || b) (any-sort p rows)

length-insert :
    (row : ActionRow) (rows : List ActionRow) → length (insert_by_time row rows) ≡ suc (length rows)
unfolding insert_by_time
length-insert row [] = refl
length-insert row (r ∷ rs) = ground (arith, length-insert row rs)

length-sort : (rows : List ActionRow) → length (sort_by_time rows) ≡ length rows
unfolding sort_by_time
length-sort [] = refl
length-sort (row ∷ rows) = length-insert row (sort_by_time rows) ∙ ap suc (length-sort rows)

take_all : (n : ℕ) (rows : List ActionRow) → length rows ≤ n → take n rows ≡ rows
take_all zero [] h = refl
take_all zero (r ∷ rs) h = absurd (omega arith)
take_all (suc n) [] h = refl
take_all (suc n) (r ∷ rs) h = ap (λ l. r ∷ l) (take_all n rs (omega arith))

-- Where there are at most `limit` pending actions, one is sent exactly if it is pending: by any
-- test of actions.
pending_actions_all :
    (p : ActionRow → Bool) (drone limit : ℕ) (db : Database)
    → length (filterb (is_pending drone) db.backend_action) ≤ limit
    → any_where p (pending_actions drone limit db)
      ≡ any_where (λ row. is_pending drone row && p row) db.backend_action
unfolding pending_actions
pending_actions_all p drone limit db h =
    ap (any_where p) (
      take_all limit (sort_by_time (filterb (is_pending drone) db.backend_action))
        (rw (length-sort (filterb (is_pending drone) db.backend_action)) h))
    ∙ any-sort p (filterb (is_pending drone) db.backend_action)
    ∙ any-filterb p (is_pending drone) db.backend_action

-- What happens to the table; `cleans` deletes backends with their actions.
pub data Change : Type 0 where
  cleans : (now : ℕ) (deleted : List BackendRow) → Change
  creates : (now id backend drone : ℕ) (action : BackendAction) → Change
  acks : (now id drone : ℕ) → Change

abbrev pub change : Change → Database → Database
change (creates now id backend drone action) db =
    (create_pending_action now id backend drone action db).1
change (cleans now deleted) db = delete_backends now deleted db
change (acks now id drone) db = ack_pending_action now id drone db

abbrev pub changes : List Change → Database → Database
changes [] db = db
changes (c ∷ cs) db = changes cs (change c db)

-- The drone acknowledges the action, or the action's backend is deleted.
abbrev is_end_of : ℕ → ℕ → ℕ → Change → Bool
is_end_of id drone b (creates now i backend d action) = false
is_end_of id drone b (acks now i d) = i == id && d == drone
is_end_of id drone b (cleans now deleted) = has_row b deleted

abbrev is_waiting : ℕ → ℕ → ℕ → List ActionRow → Bool
is_waiting id drone b rows = any_where (λ row. is_pending drone row && is_for id b row) rows

waiting-ack_other :
    (now i d id drone b : ℕ) (rows : List ActionRow)
    → (i == id && d == drone) ≡ false
    → is_waiting id drone b
        (update_where (is_action i d) (λ row. record row { acked_at = some now }) rows)
      ≡ is_waiting id drone b rows
unfolding any_where update_where
waiting-ack_other now i d id drone b [] h = refl
waiting-ack_other now i d id drone b (row ∷ rows) h =
    ground (arith, h, waiting-ack_other now i d id drone b rows h)

-- The rows of another backend are not deleted.
waiting-delete :
    (deleted : List BackendRow) (id drone b : ℕ) (rows : List ActionRow)
    → has_row b deleted ≡ false
    → is_waiting id drone b (delete_where (λ (a : ActionRow). has_row a.backend_id deleted) rows)
      ≡ is_waiting id drone b rows
unfolding any_where delete_where filterb
waiting-delete deleted id drone b [] h = refl
waiting-delete deleted id drone b (row ∷ rows) h =
    let rest = waiting-delete deleted id drone b rows h in
    elim (Bool-cases (row.backend_id == b)) [
      | inl same ↦
          let at_row : has_row row.backend_id deleted ≡ false =
            subst (λ (i : ℕ). has_row i deleted ≡ false) (sym ((==_iff row.backend_id b).0 same))
              h in
          ground (arith, at_row, same, rest)
      | inr other ↦ elim (Bool-cases (has_row row.backend_id deleted)) [
        | inl gone ↦ ground (arith, gone, other, rest)
        | inr stays ↦ ground (arith, stays, other, rest)
      ]
    ]

waiting-create :
    (now i backend d id drone b : ℕ) (action : BackendAction) (rows : List ActionRow)
    → is_waiting id drone b (rows ++ new_action now i backend d action ∷ []) ≡ (
        is_waiting id drone b rows
        || (d == drone && is_for id b (new_action now i backend d action)))
unfolding any_where
waiting-create now i backend d id drone b action [] = ground arith
waiting-create now i backend d id drone b action (row ∷ rows) =
    ground (arith, waiting-create now i backend d id drone b action rows)

change-waiting :
    (id drone b : ℕ) (c : Change) (db : Database)
    → is_end_of id drone b c ≡ false
    → is_waiting id drone b db.backend_action ≡ true
    → is_waiting id drone b (change c db).backend_action ≡ true
unfolding create_pending_action ack_pending_action delete_backends
change-waiting id drone b (creates now i backend d action) db h w =
    waiting-create now i backend d id drone b action db.backend_action ∙ (rw w refl)
change-waiting id drone b (acks now i d) db h w =
    waiting-ack_other now i d id drone b db.backend_action h ∙ w
change-waiting id drone b (cleans now deleted) db h w =
    waiting-delete deleted id drone b db.backend_action h ∙ w

changes-waiting :
    (id drone b : ℕ) (cs : List Change) (db : Database)
    → All (λ c. is_end_of id drone b c ≡ false) cs
    → is_waiting id drone b db.backend_action ≡ true
    → is_waiting id drone b (changes cs db).backend_action ≡ true
changes-waiting id drone b [] db h w = w
changes-waiting id drone b (c ∷ cs) db (h, hs) w =
    changes-waiting id drone b cs (change c db) hs (change-waiting id drone b c db h w)

-- An action that is created for a drone is among the pending actions of the drone, whatever actions
-- are created and acknowledged and whatever backends are cleaned up later, as long as the drone has
-- not acknowledged it and its backend is not deleted, if the limit holds all the pending actions of
-- the drone.
pub pending_until_acked :
    (now id backend drone limit : ℕ) (action : BackendAction) (cs : List Change) (db : Database)
    → All (λ c. is_end_of id drone backend c ≡ false) cs
    → let db' = changes cs (create_pending_action now id backend drone action db).1 in
      length (filterb (is_pending drone) db'.backend_action) ≤ limit
      → any_where (is_for id backend) (pending_actions drone limit db') ≡ true
unfolding create_pending_action
pending_until_acked now id backend drone limit action cs db h fits =
    pending_actions_all (is_for id backend) drone limit _ fits
    ∙ changes-waiting id drone backend cs _ h (
        waiting-create now id backend drone id drone backend action db.backend_action
        ∙ rw (==_refl id) (
            rw (==_refl drone)
              (rw (==_refl backend) (or_true (is_waiting id drone backend db.backend_action)))))
  where
    or_true : (b : Bool) → (b || true) ≡ true
    or_true true = refl
    or_true false = refl
