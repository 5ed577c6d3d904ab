-- ===== src/Database/Acme/Exclusive.antt =====
-- One proxy at a time has the lease of a cluster (plane/src/database/acme.rs).
use plane.Prelude.{
  Bool, List, Option, [], false, leb, none, not, some, true, ℕ, ◌&&◌, ◌+◌, ◌==◌, ◌∷◌, ◌≡◌, ◌≤◌,
  ==_iff, All, arith, leb→le, refl, ==_refl, if◌then◌else◌,
}
use plane.Prelude.Table
use plane.Prelude.Table.{Table, get-insert, get-remove}
use plane.Database.Acme.{
  AcmeRow, acme_lease, lease_cluster_dns, release_cluster_lease, set_cluster_dns, released,
  txt_record_for_cluster, written, with_txt, leased, txt_of,
}

-- What the proxies ask for, at the time of the transaction.
pub data Op : Type 0 where
  lease : (now cluster proxy : ℕ) → Op
  set : (cluster proxy value : ℕ) → Op
  release : (cluster proxy : ℕ) → Op

unfoldable pub perform : Op → Table AcmeRow → Table AcmeRow
perform (lease now cluster proxy) rows = (lease_cluster_dns now cluster proxy rows).1
perform (set cluster proxy value) rows = (set_cluster_dns cluster proxy value rows).1
perform (release cluster proxy) rows = release_cluster_lease cluster proxy rows

unfoldable pub perform_all : List Op → Table AcmeRow → Table AcmeRow
perform_all [] rows = rows
perform_all (op ∷ ops) rows = perform_all ops (perform op rows)

-- The operation is no lease after `until`, and it does not release the lease of `p` on `c`.
abbrev pub within : ℕ → ℕ → ℕ → Op → Bool
within until c p (lease now cluster proxy) = leb now until
within until c p (set cluster proxy value) = true
within until c p (release cluster proxy) = not (cluster == c && proxy == p)

-- The row says that `p` leased the cluster at `t`.
abbrev pub has : ℕ → ℕ → Option AcmeRow → Bool
has t p none = false
has t p (some row) = row.leased_at == t && row.leased_by == p

lease-has :
    (now cluster proxy t c p : ℕ) (rows : Table AcmeRow)
    → now ≤ t + acme_lease
    → has t p (Table.get c rows) ≡ true
    → has t p (Table.get c (lease_cluster_dns now cluster proxy rows).1) ≡ true
unfolding lease_cluster_dns
lease-has now cluster proxy t c p rows early h = go (Table.get cluster rows) refl
  where
    go :
        (o : Option AcmeRow)
        → Table.get cluster rows ≡ o
        → has t p (Table.get c (written cluster (leased now proxy o) rows).1) ≡ true
    go none e = ground (
      arith,
      ==_iff cluster c,
      get-insert cluster c (record { leased_at = now; leased_by = proxy; txt_value = none }) rows,
    )
    go (some row) e = ground (
      arith,
      ==_iff cluster c,
      get-insert cluster c (record row { leased_at = now; leased_by = proxy }) rows,
    )

set-has :
    (cluster proxy value t c p : ℕ) (rows : Table AcmeRow)
    → has t p (Table.get c rows) ≡ true
    → has t p (Table.get c (set_cluster_dns cluster proxy value rows).1) ≡ true
unfolding set_cluster_dns
set-has cluster proxy value t c p rows h = go (Table.get cluster rows) refl
  where
    go :
        (o : Option AcmeRow)
        → Table.get cluster rows ≡ o
        → has t p (Table.get c (written cluster (with_txt proxy value o) rows).1) ≡ true
    go none e = h
    go (some row) e =
        ground (
          arith,
          ==_iff cluster c,
          get-insert cluster c (record row { txt_value = some value }) rows,
        )

release-has :
    (cluster proxy t c p : ℕ) (rows : Table AcmeRow)
    → (cluster == c && proxy == p) ≡ false
    → has t p (Table.get c rows) ≡ true
    → has t p (Table.get c (release_cluster_lease cluster proxy rows)) ≡ true
unfolding release_cluster_lease
release-has cluster proxy t c p rows other h = go (Table.get cluster rows) refl
  where
    go :
        (o : Option AcmeRow)
        → Table.get cluster rows ≡ o
        → has t p (Table.get c (released cluster proxy o rows)) ≡ true
    go none e = h
    go (some row) e = ground (arith, ==_iff cluster c, get-remove cluster c rows)

perform_all-has :
    (ops : List Op) (t c p : ℕ) (rows : Table AcmeRow)
    → All (λ op. within (t + acme_lease) c p op ≡ true) ops
    → has t p (Table.get c rows) ≡ true
    → has t p (Table.get c (perform_all ops rows)) ≡ true
unfolding perform_all perform
perform_all-has [] t c p rows ok h = h
perform_all-has (lease now cluster proxy ∷ ops) t c p rows (early, ok) h =
    perform_all-has ops t c p _ ok (lease-has now cluster proxy t c p rows (leb→le _ _ early) h)
perform_all-has (set cluster proxy value ∷ ops) t c p rows (_, ok) h =
    perform_all-has ops t c p _ ok (set-has cluster proxy value t c p rows h)
perform_all-has (release cluster proxy ∷ ops) t c p rows (other, ok) h =
    perform_all-has ops t c p _ ok (release-has cluster proxy t c p rows (ground arith) h)

-- A lease that was given is there.
given :
    (t c p : ℕ) (rows : Table AcmeRow)
    → (lease_cluster_dns t c p rows).0 ≡ true
    → has t p (Table.get c (lease_cluster_dns t c p rows).1) ≡ true
unfolding lease_cluster_dns
given t c p rows ok = go (Table.get c rows) refl
  where
    go :
        (o : Option AcmeRow)
        → Table.get c rows ≡ o
        → has t p (Table.get c (written c (leased t p o) rows).1) ≡ true
    go none e = ground (
      arith,
      ==_refl c,
      get-insert c c (record { leased_at = t; leased_by = p; txt_value = none }) rows,
    )
    go (some row) e =
        ground (
          arith,
          ==_refl c,
          ok,
          e,
          get-insert c c (record row { leased_at = t; leased_by = p }) rows,
        )

set_of_has :
    (t c p q value : ℕ) (rows : Table AcmeRow)
    → has t p (Table.get c rows) ≡ true
    → ((set_cluster_dns c q value rows).0 ≡ (p == q))
      × (txt_record_for_cluster c (set_cluster_dns c q value rows).1
          ≡ (if p == q then some value else txt_record_for_cluster c rows))
unfolding set_cluster_dns txt_record_for_cluster
set_of_has t c p q value rows h = go (Table.get c rows) refl
  where
    go :
        (o : Option AcmeRow)
        → Table.get c rows ≡ o
        → ((written c (with_txt q value o) rows).0 ≡ (p == q))
          × (txt_of (Table.get c (written c (with_txt q value o) rows).1)
              ≡ (if p == q then some value else txt_of (Table.get c rows)))
    go none e = ground (arith, h, e)
    go (some row) e =
        ground (arith, ==_refl c, h, e, get-insert c c (record row { txt_value = some value }) rows)

-- While a minute has not passed since a proxy was given the lease of a cluster, and it has not
-- released it, it is the only one that can write the record, whatever the proxies ask for: what it
-- writes is read, and what another proxy writes is refused and changes nothing that is read.
pub lease_exclusive :
    (t c p q value : ℕ) (ops : List Op) (rows : Table AcmeRow)
    → (lease_cluster_dns t c p rows).0 ≡ true
    → All (λ op. within (t + acme_lease) c p op ≡ true) ops
    → let later = perform_all ops (lease_cluster_dns t c p rows).1 in
      ((set_cluster_dns c q value later).0 ≡ (p == q))
      × (txt_record_for_cluster c (set_cluster_dns c q value later).1
          ≡ (if p == q then some value else txt_record_for_cluster c later))
lease_exclusive t c p q value ops rows ok before =
    set_of_has t c p q value _ (perform_all-has ops t c p _ before (given t c p rows ok))
