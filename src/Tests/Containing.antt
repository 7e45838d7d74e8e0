-- ===== src/Tests/Containing.antt =====
-- The lifecycle of containers on the small platform, whose first container is alice's.
use sandbox_platform.Prelude.{ℕ, ◌+◌, ◌<◌, ◌≡◌, ◌⊎◌, inr, refl, arith, true, false, none, some}
use sandbox_platform.Action.{ok, err, not_found}
use sandbox_platform.Db.Rows.{ContainerRow, Status}
use sandbox_platform.Db.Queries.{active_containers}
use sandbox_platform.Quota.{tier_of}
use sandbox_platform.World.{World}
use sandbox_platform.Containers.Host.{resolve_image_path, handle_from_row}
use sandbox_platform.Containers.Mounts.{
  InputItem, add_input, remove_input, require_owned, require_container, require_image,
  replay_mounts, replay_rows, get_mounts,
}
use sandbox_platform.Containers.Create.{create}
use sandbox_platform.Containers.Lifecycle.{
  start, stop, destroy, restore_snapshot, resolve_running_handle, start_row, plain_start,
  restore_from_snapshot, restore_overlay, record_restored,
}
use sandbox_platform.Containers.Snapshots.{snapshot, delete_snapshot, plain_input}
use sandbox_platform.Containers.Ownership.{Hidden, hidden_refused}
use sandbox_platform.Containers.Restoring.{Restored, restore_from_snapshot-Restored}
use sandbox_platform.Containers.Capacity.{HasFreshIds, create_within_tier}
use sandbox_platform.Containers.Invariants.{WellFormed, lifecycle-WellFormed}
use sandbox_platform.Containers.Isolation.{Kept, lifecycle-Kept}
use sandbox_platform.Containers.States.{Allowed, restore_snapshot_runs}
use sandbox_platform.Tests.{
  sample_world, sample_host, sample_container, sample_snapshot, sample_handle, small_tier,
}

abbrev running_world : World ℕ
running_world = sample_world Status.running

abbrev destroyed_world : World ℕ
destroyed_world = sample_world Status.destroyed

abbrev alices : ContainerRow
alices = sample_container 1 1 Status.running

abbrev gone : ContainerRow
gone = sample_container 1 1 Status.destroyed

bob_is_no_owner : Hidden running_world 1 2
bob_is_no_owner = inr (alices, refl, ground arith)

abbrev an_item : InputItem
an_item = record { workspace_id = 1; path = "data" }

hidden_refused_example :
    let w = running_world in
    (start sample_host 1 2 false w ≡ (err not_found, w))
    × (stop sample_host 1 2 false w ≡ (err not_found, w))
    × (destroy sample_host 1 2 false w ≡ (err not_found, w))
    × (snapshot sample_host 1 2 "s" none false true w ≡ (err not_found, w))
    × (restore_snapshot sample_host 1 1 2 false w ≡ (err not_found, w))
    × (delete_snapshot sample_host 1 1 2 false w ≡ (err not_found, w))
    × (resolve_running_handle sample_host 1 2 false w ≡ (err not_found, w))
    × (add_input sample_host 1 2 an_item false w ≡ (err not_found, w))
    × (remove_input sample_host 1 2 1 false w ≡ (err not_found, w))
hidden_refused_example =
    hidden_refused sample_host running_world 1 2 bob_is_no_owner 1 "s" none true an_item

restore_from_snapshot-Restored_example :
    Restored sample_host alices sample_snapshot running_world
      (restore_from_snapshot sample_host alices sample_snapshot running_world).0
      (restore_from_snapshot sample_host alices sample_snapshot running_world).1
restore_from_snapshot-Restored_example =
    restore_from_snapshot-Restored sample_host alices sample_snapshot running_world

fresh_ids : HasFreshIds running_world.db
fresh_ids = record { containers = ground arith; overlays = ground arith }

well_formed : WellFormed running_world.db
well_formed = record { fresh = fresh_ids; current = record { at = λ c. ground arith } }

tier_of_alice : tier_of 1 running_world.db ≡ some small_tier
unfolding tier_of
tier_of_alice = refl

create_within_tier_example :
    let w = running_world in
    let v = (create sample_host 1 (plain_input 1 "new") false w).1 in
    (active_containers 1 v.db ≡ active_containers 1 w.db)
    ⊎ ((◌≡◌ {A = ℕ} 1 1)
        × (active_containers 1 v.db ≡ active_containers 1 w.db + 1)
        × (active_containers 1 w.db < small_tier.max_containers))
create_within_tier_example =
    create_within_tier sample_host 1 (plain_input 1 "new") false running_world small_tier 1
      fresh_ids tier_of_alice

lifecycle-WellFormed_example :
    WellFormed (start sample_host 1 1 false running_world).1.db
    × WellFormed (stop sample_host 1 1 false running_world).1.db
    × WellFormed (destroy sample_host 1 1 false running_world).1.db
    × WellFormed (restore_snapshot sample_host 1 1 1 false running_world).1.db
lifecycle-WellFormed_example =
    lifecycle-WellFormed sample_host 1 1 1 false running_world well_formed

lifecycle-Kept_example :
    Kept 2 running_world.db (start sample_host 1 1 false running_world).1.db
    × Kept 2 running_world.db (stop sample_host 1 1 false running_world).1.db
    × Kept 2 running_world.db (destroy sample_host 1 1 false running_world).1.db
    × Kept 2 running_world.db (restore_snapshot sample_host 1 1 1 false running_world).1.db
lifecycle-Kept_example = lifecycle-Kept sample_host 1 2 1 1 false running_world (ground arith)

alice_may_act : Allowed destroyed_world 1 1 false gone
alice_may_act = record { found = refl; owned = refl }

-- alice's destroyed container, brought back.
abbrev revived : ContainerRow
revived = record gone {
  status = Status.running;
  overlay_path = some "/overlays/new";
  last_started_at = some 7;
}

brought_back : (restore_snapshot sample_host 1 1 1 false destroyed_world).0 ≡ ok revived
unfolding restore_snapshot restore_from_snapshot restore_overlay require_owned require_container
    require_image replay_mounts replay_rows get_mounts resolve_image_path record_restored
brought_back = refl

restore_snapshot_runs_example :
    (revived.status ≡ Status.running)
    × (revived.auto_stopped ≡ gone.auto_stopped)
    × (revived.error_message ≡ none)
restore_snapshot_runs_example =
    restore_snapshot_runs sample_host destroyed_world 1 1 false gone alice_may_act 1 revived
      brought_back

abbrev bobs : ContainerRow
bobs = record (sample_container 2 2 Status.stopped) {
  status = Status.running;
  overlay_path = some "/overlays/new";
  last_started_at = some 7;
}

bob_starts : (start sample_host 2 2 false running_world).0 ≡ ok bobs
unfolding start start_row plain_start require_owned require_container require_image replay_mounts
    replay_rows get_mounts resolve_image_path
bob_starts = refl

alices_handle : handle_from_row alices ≡ ok sample_handle
unfolding handle_from_row
alices_handle = refl
