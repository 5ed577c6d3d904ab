-- ===== src/Controller/StatusStream/Resume.antt =====
-- A client that lost its connection resumes the stream where it stopped
-- (plane/src/controller/backend_state.rs).
use plane.Prelude.{
  All, List, [], arith, map, refl, some, ◌<◌, ◌∷◌, ◌≡◌, ◌≤◌, All-append, Option, ap, append_assoc,
  filterb-append, subst, sym, ◌++◌, ◌∙◌,
}
use plane.BackendState.{BackendStatus, ordinal, status}
use plane.BackendState.StreamEntry.{from_state, BackendStatusStreamEntry}
use plane.Database.Backend.Stream.{StateNotice, status_stream}
use plane.Database.Backend.Stream.Complete.{
  Ascending, Ascending-suffix, entry_of, map-append, row_of, status_stream_complete,
}
use plane.Controller.StatusStream.{handle_backend_status_stream}

skip_old :
    (last : BackendStatus) (ns : List StateNotice)
    → All (λ n. ordinal (status n.payload) ≤ ordinal last) ns
    → handle_backend_status_stream (some last) (map entry_of ns) ≡ []
unfolding handle_backend_status_stream from_state
skip_old last [] h = refl
skip_old last (n ∷ ns) (h, hs) = ground (arith, skip_old last ns hs)

keep_new :
    (last : BackendStatus) (ns : List StateNotice)
    → All (λ n. ordinal last < ordinal (status n.payload)) ns
    → handle_backend_status_stream (some last) (map entry_of ns) ≡ map entry_of ns
unfolding handle_backend_status_stream from_state
keep_new last [] h = refl
keep_new last (n ∷ ns) (h, hs) = ground (arith, keep_new last ns hs)

before_last :
    (xs ys : List StateNotice) (n : StateNotice)
    → Ascending (xs ++ n ∷ ys)
    → All (λ m. ordinal (status m.payload) ≤ ordinal (status n.payload)) xs
before_last [] ys n a = tt
before_last (x ∷ xs) ys n (a, rest) = (middle xs a, before_last xs ys n rest)
  where
    middle :
        (zs : List StateNotice)
        → All (λ m. ordinal (status x.payload) < ordinal (status m.payload)) (zs ++ n ∷ ys)
        → ordinal (status x.payload) ≤ ordinal (status n.payload)
    middle [] k = omega (arith, k.0)
    middle (z ∷ zs) k = middle zs k.1

handle-append :
    (last : Option BackendStatus) (xs ys : List BackendStatusStreamEntry)
    → handle_backend_status_stream last (xs ++ ys)
      ≡ handle_backend_status_stream last xs ++ handle_backend_status_stream last ys
unfolding handle_backend_status_stream
handle-append last xs ys = filterb-append _ xs ys

resumes :
    (xs ys : List StateNotice) (n : StateNotice)
    → Ascending (xs ++ n ∷ ys)
    → handle_backend_status_stream (some (status n.payload)) (map entry_of (xs ++ n ∷ ys))
      ≡ map entry_of ys
resumes xs ys n a =
    ap (λ l. handle_backend_status_stream (some (status n.payload)) (map entry_of l))
      (sym (append_assoc xs (n ∷ []) ys))
    ∙ ap (handle_backend_status_stream (some (status n.payload))) (map-append (xs ++ n ∷ []) ys)
    ∙ handle-append (some (status n.payload)) (map entry_of (xs ++ n ∷ [])) (map entry_of ys)
    ∙ ap (λ l. l ++ handle_backend_status_stream (some (status n.payload)) (map entry_of ys))
        (skip_old (status n.payload) (xs ++ n ∷ [])
          (All-append _ xs (n ∷ []) (before_last xs ys n a) (omega arith, tt)))
    ∙ keep_new (status n.payload) ys (Ascending-suffix xs (n ∷ ys) a).0

-- A client that saw the log up to the state `n` and resumes with that status as the id of its last
-- event is shown the states after it, once and in order, wherever its new subscription begins. The
-- statuses of the log ascend.
pub handle_backend_status_stream_resumes :
    (before both later xs ys : List StateNotice) (n : StateNotice)
    → Ascending (before ++ (both ++ later))
    → before ++ (both ++ later) ≡ xs ++ n ∷ ys
    → handle_backend_status_stream
        (some (status n.payload))
        (status_stream (map row_of (before ++ both)) (both ++ later))
      ≡ map entry_of ys
handle_backend_status_stream_resumes before both later xs ys n a e =
    ap (handle_backend_status_stream (some (status n.payload)))
      (status_stream_complete before both later a ∙ ap (map entry_of) e)
    ∙ resumes xs ys n (subst Ascending e a)
