-- ===== src/Tests/Imaging.antt =====
-- The image catalogue on the small platform.
use sandbox_platform.Prelude.{ℕ, ◌<◌, ◌≡◌, ◌⊎◌, arith, none, some, count_where}
use sandbox_platform.Action.{ok, err, conflict}
use sandbox_platform.Db.Rows.{Status}
use sandbox_platform.Db.Queries.{image_by_id}
use sandbox_platform.World.{World}
use sandbox_platform.Images.{NewImage, ImagePatch, is_of_image, create, update, delete}
use sandbox_platform.Images.Catalogue.{HasUniqueNames, writes-HasUniqueNames, delete_keeps_used}
use sandbox_platform.Tests.{sample_world}

abbrev platform : World ℕ
platform = sample_world Status.running

abbrev node : NewImage
node = record {
  name = "node";
  display_name = "Node";
  sif_path = "images/node.sif";
  description = none;
  is_public = none;
  tags = none;
  default_resources = none;
  overlay_kind = none;
  max_per_user = none;
}

abbrev lift_cap : ImagePatch
lift_cap = record {
  name = some "renamed";
  display_name = none;
  sif_path = none;
  description = none;
  is_public = none;
  tags = none;
  default_resources = none;
  overlay_kind = none;
  max_per_user = some (some 0);
}

unique_names : HasUniqueNames platform.db
unique_names name = ground arith

writes-HasUniqueNames_example :
    HasUniqueNames (create node platform).1.db
    × HasUniqueNames (update 1 lift_cap platform).1.db
    × HasUniqueNames (delete 1 platform).1.db
writes-HasUniqueNames_example = writes-HasUniqueNames platform node 1 lift_cap unique_names

delete_keeps_used_example :
    let (r, v) = delete 1 platform in
    ((0 < count_where (is_of_image 1) platform.db.containers.rows)
      × (r ≡ err conflict)
      × (v.db ≡ platform.db))
    ⊎ ((r ≡ ok tt)
        × (image_by_id 1 v.db ≡ none)
        × (v.db.containers ≡ platform.db.containers)
        × ((other : ℕ)
            → 0 < count_where (is_of_image other) platform.db.containers.rows
            → image_by_id other v.db ≡ image_by_id other platform.db))
delete_keeps_used_example = delete_keeps_used platform 1
