-- ===== src/Database/Backend/Stream/Complete.antt =====
-- Nothing is lost and nothing is repeated between the log and the notifications of `status_stream`
-- (plane/src/database/backend.rs).
use plane.Prelude.{
  All, List, Option, [], ap, le→leb, lt→not_leb, map, none, refl, some, ℕ, ◌++◌, ◌<◌, ◌∷◌, ◌≡◌, ◌≤◌,
  append_assoc, arith, sym, ◌∙◌,
}
use plane.BackendState.{BackendStatus, ordinal, status, status_le}
use plane.BackendState.StreamEntry.{BackendStatusStreamEntry, from_state}
use plane.Database.Backend.Stream.{StateNotice, StateRow, follow, read_rows, status_stream}

-- The transaction that logs a state gives the row and the notification the same time.
abbrev pub row_of : StateNotice → StateRow
row_of n = record { created_at = n.timestamp; state = some n.payload }

abbrev pub entry_of : StateNotice → BackendStatusStreamEntry
entry_of n = from_state n.payload n.timestamp

abbrev order_of : StateNotice → ℕ
order_of n = ordinal (status n.payload)

-- Each status is after those before it.
abbrev pub Ascending : List StateNotice → Type 0
Ascending [] = Unit
Ascending (n ∷ ns) = All (λ m. order_of n < order_of m) ns × Ascending ns

abbrev last_seen : Option BackendStatus → List StateNotice → Option BackendStatus
last_seen last [] = last
last_seen last (n ∷ ns) = last_seen (some (status n.payload)) ns

read_rows_lem :
    (last : Option BackendStatus) (ns : List StateNotice)
    → read_rows last (map row_of ns) ≡ (map entry_of ns, last_seen last ns)
unfolding read_rows
read_rows_lem last [] = refl
read_rows_lem last (n ∷ ns) = rw (read_rows_lem (some (status n.payload)) ns) refl

follow_old :
    (last : BackendStatus) (ns ms : List StateNotice)
    → All (λ n. order_of n ≤ ordinal last) ns
    → follow (some last) (ns ++ ms) ≡ follow (some last) ms
unfolding follow status_le
follow_old last [] ms h = refl
follow_old last (n ∷ ns) ms (h, hs) =
    ground (arith, follow_old last ns ms hs, le→leb (order_of n) (ordinal last) h)

follow_new :
    (last : BackendStatus) (ns : List StateNotice)
    → All (λ n. ordinal last < order_of n) ns
    → Ascending ns
    → follow (some last) ns ≡ map entry_of ns
unfolding follow status_le
follow_new last [] h a = refl
follow_new last (n ∷ ns) (h, hs) (a, rest) =
    ground
      (arith, follow_new (status n.payload) ns a rest, lt→not_leb (order_of n) (ordinal last) h)

follow_all : (ns : List StateNotice) → Ascending ns → follow none ns ≡ map entry_of ns
unfolding follow
follow_all [] a = refl
follow_all (n ∷ ns) (a, rest) = ap (λ l. entry_of n ∷ l) (follow_new (status n.payload) ns a rest)

pub Ascending-suffix : (ns ms : List StateNotice) → Ascending (ns ++ ms) → Ascending ms
Ascending-suffix [] ms a = a
Ascending-suffix (n ∷ ns) ms (h, a) = Ascending-suffix ns ms a

-- The last state of an ascending run that was read is above the run and below what follows.
last_seen_lem :
    (s : BackendStatus) (ms later : List StateNotice)
    → All (λ n. ordinal s < order_of n) (ms ++ later)
    → Ascending (ms ++ later)
    → (last : BackendStatus) × (last_seen (some s) ms ≡ some last)
      × (ordinal s ≤ ordinal last)
      × All (λ n. order_of n ≤ ordinal last) ms
      × All (λ n. ordinal last < order_of n) later
last_seen_lem s [] later h a = (s, refl, omega arith, tt, h)
last_seen_lem s (m ∷ ms) later (h, hs) (a, rest) =
    let (last, seen, le, old, new) = last_seen_lem (status m.payload) ms later a rest in
    (last, seen, omega arith, (le, old), new)

last_seen-append :
    (o : Option BackendStatus) (ns ms : List StateNotice)
    → last_seen o (ns ++ ms) ≡ last_seen (last_seen o ns) ms
last_seen-append o [] ms = refl
last_seen-append o (n ∷ ns) ms = last_seen-append (some (status n.payload)) ns ms

-- What was read of the notifications is skipped, and the rest is shown.
skips :
    (both later : List StateNotice) (o : Option BackendStatus)
    → Ascending (both ++ later)
    → follow o later ≡ map entry_of later
    → follow (last_seen o both) (both ++ later) ≡ map entry_of later
skips [] later o a h = h
skips (m ∷ ms) later o (a, rest) h =
    let (last, seen, le, old, new) = last_seen_lem (status m.payload) ms later a rest in
    ap (λ l. follow l (m ∷ (ms ++ later))) seen
    ∙ follow_old last (m ∷ ms) later (le, old)
    ∙ follow_new last later new (Ascending-suffix ms later rest)

All-suffix : (P : StateNotice → Type 0) (xs ys : List StateNotice) → All P (xs ++ ys) → All P ys
All-suffix P [] ys h = h
All-suffix P (x ∷ xs) ys (h, hs) = All-suffix P xs ys hs

follow_later :
    (before both later : List StateNotice)
    → Ascending (before ++ (both ++ later))
    → follow (last_seen none before) later ≡ map entry_of later
follow_later [] both later a = follow_all later (Ascending-suffix both later a)
follow_later (n ∷ ns) both later (a, rest) =
    let (last, seen, le, old, new) = last_seen_lem (status n.payload) ns (both ++ later) a rest in
    ap (λ l. follow l later) seen
    ∙ follow_new last later (All-suffix _ both later new)
        (Ascending-suffix both later (Ascending-suffix ns (both ++ later) rest))

pub map-append :
    (xs ys : List StateNotice) → map entry_of (xs ++ ys) ≡ map entry_of xs ++ map entry_of ys
map-append [] ys = refl
map-append (x ∷ xs) ys = ap (λ l. entry_of x ∷ l) (map-append xs ys)

-- A client whose subscription began after the states `before`, and which read the log after the
-- states `both`, is shown every state of the log once and in order, where the statuses of the log
-- ascend.
pub status_stream_complete :
    (before both later : List StateNotice)
    → Ascending (before ++ (both ++ later))
    → status_stream (map row_of (before ++ both)) (both ++ later)
      ≡ map entry_of (before ++ (both ++ later))
unfolding status_stream
status_stream_complete before both later a = rw (read_rows_lem none (before ++ both)) (
    ap (λ l. map entry_of (before ++ both) ++ l) notices
    ∙ sym (map-append (before ++ both) later)
    ∙ ap (map entry_of) (append_assoc before both later))
  where
    notices : follow (last_seen none (before ++ both)) (both ++ later) ≡ map entry_of later
    notices = rw (last_seen-append none before both) (
        skips both later (last_seen none before) (Ascending-suffix before (both ++ later) a)
          (follow_later before both later a))
