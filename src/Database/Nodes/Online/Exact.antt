-- ===== src/Database/Nodes/Online/Exact.antt =====
-- A node is online exactly while its latest connection is open (plane/src/database/node.rs).
use plane.Prelude.{
  All, All-append, All-map, Bool, Bool-cases, List, Option, [], arith, false, find, if◌then◌else◌,
  inl, inr, none, refl, some, subst, sym, true, ℕ, ◌++◌, ◌<◌, ◌==◌, ◌∷◌, ◌≡◌, ◌≤◌,
}
use plane.Prelude.Rows.{update_where}
use plane.Database.Nodes.{
  NodeRow, PlaneVersionInfo, conflicts, connected, is_connection, mark_offline, new_node, register,
  registered, update_first,
}
use plane.Database.Nodes.Online.{
  NodeHandle, Reach, Shows, Step, World, connect, connects, drops, empty, here, next,
}
use plane.Database.Nodes.Online.Latest.{
  All-drop, Distinct-drop, IsOnline, Past, Shows-drop, Shows-new, Shows-old, after_drop,
}

-- Statements on rows.
All-update_first :
    (P Q : NodeRow → Type 0) (p : NodeRow → Bool) (f : NodeRow → NodeRow) (rows : List NodeRow)
    (r : NodeRow)
    → find p rows ≡ some r
    → Q (f r)
    → ((row : NodeRow) → P row → Q row)
    → All P rows
    → All Q (update_first p f rows)
unfolding update_first find
All-update_first P Q p f [] r e q g h = cc
All-update_first P Q p f (row ∷ rows) r e q g (h, hs) = elim (Bool-cases (p row)) [
  | inl taken ↦ rw taken (subst (λ x. Q (f x)) (sym (same taken)) q, All-map P Q g rows hs)
  | inr left ↦ rw left (g row h, All-update_first P Q p f rows r (rw left at e) q g hs)
]
  where
    same : p row ≡ true → row ≡ r
    same taken = ground (arith, e, taken)

All-update_where :
    (P Q : NodeRow → Type 0) (p : NodeRow → Bool) (f : NodeRow → NodeRow) (rows : List NodeRow)
    → ((row : NodeRow) → P row → Q (if p row then f row else row))
    → All P rows
    → All Q (update_where p f rows)
unfolding update_where
All-update_where P Q p f [] g h = tt
All-update_where P Q p f (row ∷ rows) g (h, hs) = (g row h, All-update_where P Q p f rows g hs)

All-pair :
    (P Q : NodeRow → Type 0) (rows : List NodeRow)
    → All P rows
    → All Q rows
    → All (λ r. P r × Q r) rows
All-pair P Q [] h k = tt
All-pair P Q (r ∷ rs) (h, hs) (k, ks) = ((h, k), All-pair P Q rs hs ks)

Past-later : (clock now : ℕ) (o : Option ℕ) → clock ≤ now → Past clock o → Past now o
Past-later clock now none le p = tt
Past-later clock now (some t) le p = omega arith

drops-IsOnline :
    (w : World) (before after : List NodeHandle) (h : NodeHandle)
    → w.handles ≡ before ++ h ∷ after
    → IsOnline w
    → IsOnline (record w {
      nodes = mark_offline h.id h.controller h.connection_start_time w.nodes;
      handles = before ++ after;
    })
unfolding mark_offline
drops-IsOnline w before after h e i =
    let (differ, distinct) = Distinct-drop before after h (rw e at i.distinct) in
    record {
      shown =
          All-update_where (Shows w.handles) (Shows (before ++ after))
            (is_connection h.id h.controller h.connection_start_time)
            (λ row. record row { controller = none }) w.nodes.rows
            (λ row s. Shows-drop row before after h differ (rw e at s)) i.shown;
      distinct = distinct;
      past = All-drop _ before after h (rw e at i.past);
      past_rows =
          All-update_where (λ (row : NodeRow). Past w.clock row.last_connection_start_time)
            (λ (row : NodeRow). Past w.clock row.last_connection_start_time)
            (is_connection h.id h.controller h.connection_start_time)
            (λ row. record row { controller = none }) w.nodes.rows kept i.past_rows;
    }
  where
    kept :
        (row : NodeRow)
        → Past w.clock row.last_connection_start_time
        → Past w.clock (after_drop h row).last_connection_start_time
    kept row s = elim (Bool-cases (is_connection h.id h.controller h.connection_start_time row)) [
      | inl hit ↦ rw hit s
      | inr miss ↦ rw miss s
    ]

rows_registered :
    (w : World) (now : ℕ) (cluster : Option ℕ) (name kind controller : ℕ)
    (version : PlaneVersionInfo) (ip : ℕ) (o : Option NodeRow)
    → w.clock < now
    → IsOnline w
    → find (conflicts cluster name) w.nodes.rows ≡ o
    → let (id, nodes) = registered now cluster name kind controller version ip o w.nodes in
      All
        (λ row.
          Shows
            (record { id = id; controller = controller; connection_start_time = now } ∷ w.handles)
            row
          × Past now row.last_connection_start_time)
        nodes.rows
unfolding registered
rows_registered w now cluster name kind controller version ip none lt i f =
    All-append _ w.nodes.rows _
      (All-map _ _
        (λ row (s, p).
          (Shows-old w.clock row _ w.handles lt p s, Past-later w.clock now _ (omega arith) p))
        w.nodes.rows (All-pair _ _ w.nodes.rows i.shown i.past_rows))
      (
        (
          Shows-new w.clock now
              (new_node w.nodes.next_id now cluster name kind controller version ip) _ w.handles lt
              refl refl refl refl i.past,
          omega arith,
        ),
        tt,
      )
rows_registered w now cluster name kind controller version ip (some r) lt i f =
    All-update_first _ _ _ _ w.nodes.rows r f
      (
        Shows-new w.clock now (connected now controller version ip r) _ w.handles lt refl refl refl
            refl i.past,
        omega arith,
      )
      (λ row (s, p).
        (Shows-old w.clock row _ w.handles lt p s, Past-later w.clock now _ (omega arith) p))
      (All-pair _ _ w.nodes.rows i.shown i.past_rows)

All-fst : (P Q : NodeRow → Type 0) (rows : List NodeRow) → All (λ r. P r × Q r) rows → All P rows
All-fst P Q rows h = All-map (λ r. P r × Q r) P (λ r k. k.0) rows h

All-snd : (P Q : NodeRow → Type 0) (rows : List NodeRow) → All (λ r. P r × Q r) rows → All Q rows
All-snd P Q rows h = All-map (λ r. P r × Q r) Q (λ r k. k.1) rows h

connects-IsOnline :
    (w : World) (now : ℕ) (cluster : Option ℕ) (name kind controller : ℕ)
    (version : PlaneVersionInfo) (ip : ℕ)
    → w.clock < now
    → IsOnline w
    → IsOnline (connect now cluster name kind controller version ip w)
unfolding register
connects-IsOnline w now cluster name kind controller version ip lt i = record {
  shown = All-fst _ _ _ rows;
  distinct = (
    All-map (λ (h : NodeHandle). h.connection_start_time ≤ w.clock)
        (λ (h : NodeHandle). (h.connection_start_time == now) ≡ false) (λ h p. ground arith)
        w.handles i.past,
    i.distinct,
  );
  past = (
    omega arith,
    All-map (λ (h : NodeHandle). h.connection_start_time ≤ w.clock)
        (λ (h : NodeHandle). h.connection_start_time ≤ now) (λ h p. omega arith) w.handles i.past,
  );
  past_rows = All-snd _ _ _ rows;
}
  where
    rows :
        All
          (λ row.
            Shows (connect now cluster name kind controller version ip w).handles row
            × Past now row.last_connection_start_time)
          (connect now cluster name kind controller version ip w).nodes.rows
    rows =
        rows_registered w now cluster name kind controller version ip
          (find (conflicts cluster name) w.nodes.rows) lt i refl

step-IsOnline : (w u : World) → Step w u → IsOnline w → IsOnline u
step-IsOnline w u (connects now cluster name kind controller version ip lt q) i =
    rw q (connects-IsOnline w now cluster name kind controller version ip lt i)
step-IsOnline w u (drops before h after e q) i = rw q (drops-IsOnline w before after h e i)

reach-IsOnline : (w : World) → Reach empty w → IsOnline w
reach-IsOnline w here = record { shown = tt; distinct = tt; past = tt; past_rows = tt }
reach-IsOnline w (next {u} r s) = step-IsOnline u w s (reach-IsOnline u r)

-- Over any connections and disconnections, whose handles may be dropped late and in any order,
-- every row shows a controller exactly while the handle of its latest connection is open, and it
-- is that handle's controller.
pub reach-Shows : (w : World) → Reach empty w → All (Shows w.handles) w.nodes.rows
reach-Shows w r = (reach-IsOnline w r).shown
