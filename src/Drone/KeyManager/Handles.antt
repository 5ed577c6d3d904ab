-- ===== src/Drone/KeyManager/Handles.antt =====
-- The table of loops of plane/src/drone/key_manager.rs: each loop runs with the newest deadlines
-- of its key and with the newest sender.
use mathlib.Core.Option
use plane.Prelude.{
  List, Option, [], arith, none, refl, some, ℕ, ◌∷◌, ◌≡◌, Option-cases, if◌then◌else◌, inl, inr,
  ◌==◌,
}
use plane.Prelude.Table
use plane.Prelude.Table.{Table, get-insert, get-remove}
use plane.Protocol.{AcquiredKey, KeyDeadlines}
use plane.Drone.KeyManager.{
  Handle, KeyManager, new, restart, set_sender, register_key, with_deadlines, update_deadlines,
  unregister_key,
}

-- The calls that the drone makes of its key manager.
pub data Call : Type 0 where
  connect : (sender : ℕ) → Call
  register : (backend : ℕ) (key : AcquiredKey) → Call
  update : (backend : ℕ) (deadlines : KeyDeadlines) → Call
  unregister : (backend : ℕ) → Call

unfoldable pub call : Call → KeyManager → KeyManager
call (Call.connect sender) m = set_sender sender m
call (Call.register b key) m = (register_key b key m).1
call (Call.update b d) m = update_deadlines b d m
call (Call.unregister b) m = unregister_key b m

unfoldable pub calls : List Call → KeyManager → KeyManager
calls [] m = m
calls (c ∷ cs) m = calls cs (call c m)

-- Every loop was started with its entry's key, and with the sender that the manager has.
pub record IsCurrent (m : KeyManager) : Type 0 where
  pub at :
      (b : ℕ) (key : AcquiredKey) (handle : Handle)
      → Table.get b m.handles ≡ some (key, handle)
      → (handle.key ≡ key) × (handle.sender ≡ m.sender)

abbrev restarted : ℕ → Option (AcquiredKey × Handle) → Option (AcquiredKey × Handle)
restarted sender none = none
restarted sender (some (key, handle)) = some (key, record { key = key; sender = some sender })

get-restart :
    (b sender : ℕ) (t : Table (AcquiredKey × Handle))
    → Table.get b (restart sender t) ≡ restarted sender (Table.get b t)
unfolding restart Table.get
get-restart b sender [] = refl
get-restart b sender ((j, (key, handle)) ∷ t) = ground (arith, get-restart b sender t)

call-IsCurrent : (c : Call) (m : KeyManager) → IsCurrent m → IsCurrent (call c m)
unfolding call set_sender register_key update_deadlines unregister_key
call-IsCurrent (Call.connect s) m v = record {
  at = λ b key handle h. ground (arith, get-restart b s m.handles, v.at b key handle);
}
call-IsCurrent (Call.register j k) m v = record {
  at = λ b key handle h. ground (
    arith,
    v.at b key handle,
    get-insert j b (k, record { key = k; sender = m.sender }) m.handles,
  );
}
call-IsCurrent (Call.update j d) m v = record {
  at = λ b key handle h. elim (Option-cases (Table.get j m.handles)) [
    | inl absent ↦ ground (arith, v.at b key handle)
    | inr ((k, old), e) ↦ ground (
      arith,
      get-insert j b (with_deadlines d k, record { key = with_deadlines d k; sender = m.sender })
          m.handles,
      v.at b key handle,
    )
  ];
}
call-IsCurrent (Call.unregister j) m v = record {
  at = λ b key handle h. ground (arith, v.at b key handle, get-remove j b m.handles);
}

calls-IsCurrent_from : (cs : List Call) (m : KeyManager) → IsCurrent m → IsCurrent (calls cs m)
unfolding calls
calls-IsCurrent_from [] m v = v
calls-IsCurrent_from (c ∷ cs) m v = calls-IsCurrent_from cs (call c m) (call-IsCurrent c m v)

-- After any calls on a new key manager, the loop of each backend runs with the deadlines that the
-- manager has for it, and with the sender that the manager has.
pub calls-IsCurrent : (cs : List Call) → IsCurrent (calls cs new)
unfolding new Table.get
calls-IsCurrent cs = calls-IsCurrent_from cs new (record { at = λ b key handle h. cc })

-- New deadlines reach the loop of a registered backend, keep its key and its token, and touch no
-- other backend; for a backend that is not registered nothing changes.
pub update_deadlines_lem :
    (b j : ℕ) (d : KeyDeadlines) (m : KeyManager)
    → Table.get j (update_deadlines b d m).handles ≡ (
        if b == j
        then Option.map
            (λ e. (with_deadlines d e.0, record { key = with_deadlines d e.0; sender = m.sender }))
            (Table.get b m.handles)
        else Table.get j m.handles)
unfolding update_deadlines
update_deadlines_lem b j d m = elim (Option-cases (Table.get b m.handles)) [
  | inl absent ↦ ground arith
  | inr ((k, old), e) ↦ ground (
    arith,
    get-insert b j (with_deadlines d k, record { key = with_deadlines d k; sender = m.sender })
        m.handles,
  )
]
