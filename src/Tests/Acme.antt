-- ===== src/Tests/Acme.antt =====
-- The lease of a cluster's DNS record (plane/src/database/acme.rs).
use plane.Prelude.{List, [], if◌then◌else◌, refl, some, true, ◌*◌, ◌==◌, ◌∷◌, ◌≡◌}
use plane.Prelude.Table
use plane.Prelude.Table.{Table}
use plane.Protocol.{second}
use plane.Database.Acme.{AcmeRow, lease_cluster_dns, set_cluster_dns, txt_record_for_cluster}
use plane.Database.Acme.Exclusive.{Op, lease, lease_exclusive, perform_all, release, set}

-- Proxy 1 had the lease of cluster 5 long ago.
abbrev before : Table AcmeRow
before = (5, record { leased_at = 0; leased_by = 1; txt_value = some 8 }) ∷ []

-- Proxy 3 asks too early, and tries to write and to release.
abbrev ops : List Op
ops = lease (130 * second) 5 3 ∷ set 5 3 9 ∷ release 5 3 ∷ []

given_now : (lease_cluster_dns (100 * second) 5 2 before).0 ≡ true
unfolding lease_cluster_dns Table.get
given_now = refl

lease_exclusive_example :
    let later = perform_all ops (lease_cluster_dns (100 * second) 5 2 before).1 in
    ((set_cluster_dns 5 2 7 later).0 ≡ (2 == 2))
    × (txt_record_for_cluster 5 (set_cluster_dns 5 2 7 later).1
        ≡ (if 2 == 2 then some 7 else txt_record_for_cluster 5 later))
lease_exclusive_example =
    lease_exclusive (100 * second) 5 2 2 7 ops before given_now (refl, (refl, (refl, tt)))
