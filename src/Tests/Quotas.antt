-- ===== src/Tests/Quotas.antt =====
-- The quota checks on the small platform.
use sandbox_platform.Prelude.{◌≡◌, refl, some}
use sandbox_platform.Db.{Db}
use sandbox_platform.Db.Rows.{Status, ResourceRequest}
use sandbox_platform.Quota.{tier_of}
use sandbox_platform.Tests.{sample_db, small_tier}

abbrev platform : Db
platform = sample_db Status.running

abbrev two_cores : ResourceRequest
two_cores = record { cpu = 2; memory_mb = 1024; disk_gb = 1 }

tier_of_alice : tier_of 1 platform ≡ some small_tier
unfolding tier_of
tier_of_alice = refl
