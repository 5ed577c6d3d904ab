-- ===== src/Database/Acme.antt =====
-- plane/src/database/acme.rs: the lease on the DNS record of a cluster, which one proxy at a time
-- uses to have a certificate issued. The cluster is the primary key of the table.
pub mod Exclusive
use plane.Prelude.{Bool, Option, false, if◌then◌else◌, ltb, none, some, true, ℕ, ◌*◌, ◌+◌, ◌==◌}
use plane.Prelude.Table
use plane.Prelude.Table.{Table}
use plane.Protocol.{second}

pub record AcmeRow : Type 0 where
  pub leased_at : ℕ
  pub leased_by : ℕ
  pub txt_value : Option ℕ

-- `interval '1 minute'`
abbrev pub acme_lease : ℕ
acme_lease = 60 * second

abbrev pub leased : ℕ → ℕ → Option AcmeRow → Option AcmeRow
leased now proxy none = some (record { leased_at = now; leased_by = proxy; txt_value = none })
leased now proxy (some row) =
    if ltb (row.leased_at + acme_lease) now
    then some (record row { leased_at = now; leased_by = proxy })
    else none

abbrev pub written : ℕ → Option AcmeRow → Table AcmeRow → Bool × Table AcmeRow
written cluster none rows = (false, rows)
written cluster (some row) rows = (true, Table.insert cluster row rows)

-- `insert … on conflict (cluster) do update … where …`; the value of the record is kept.
unfoldable pub lease_cluster_dns : ℕ → ℕ → ℕ → Table AcmeRow → Bool × Table AcmeRow
lease_cluster_dns now cluster proxy rows =
    written cluster (leased now proxy (Table.get cluster rows)) rows

abbrev pub with_txt : ℕ → ℕ → Option AcmeRow → Option AcmeRow
with_txt proxy value none = none
with_txt proxy value (some row) =
    if row.leased_by == proxy then some (record row { txt_value = some value }) else none

unfoldable pub set_cluster_dns : ℕ → ℕ → ℕ → Table AcmeRow → Bool × Table AcmeRow
set_cluster_dns cluster proxy value rows =
    written cluster (with_txt proxy value (Table.get cluster rows)) rows

abbrev pub txt_of : Option AcmeRow → Option ℕ
txt_of none = none
txt_of (some row) = row.txt_value

unfoldable pub txt_record_for_cluster : ℕ → Table AcmeRow → Option ℕ
txt_record_for_cluster cluster rows = txt_of (Table.get cluster rows)

abbrev pub released : ℕ → ℕ → Option AcmeRow → Table AcmeRow → Table AcmeRow
released cluster proxy none rows = rows
released cluster proxy (some row) rows =
    if row.leased_by == proxy then Table.remove cluster rows else rows

unfoldable pub release_cluster_lease : ℕ → ℕ → Table AcmeRow → Table AcmeRow
release_cluster_lease cluster proxy rows = released cluster proxy (Table.get cluster rows) rows
