-- ===== src/Images.antt =====
-- services/image.service.ts list, create, update and delete. What decodeJson gives back is the value
-- that encodeJson was given.
pub mod Catalogue
use sandbox_platform.Prelude.{
  ℕ, zero, suc, String, Bool, true, false, ◌&&◌, not, Option, none, some, is_some, or_else, List,
  ◌<◌, ◌==◌, str_eq, if◌then◌else◌, find_where, count_where, update_where, delete_where, any_where,
}
use sandbox_platform.Action.{Action, ◌>>=◌, ◌>>◌, pure, throw_if, conflict}
use sandbox_platform.Db.{Db, insert_row, with_rows}
use sandbox_platform.Db.Rows.{ImageRow, OverlayKind, ResourceRequest, ContainerRow}
use sandbox_platform.Db.Queries.{image_by_id}
use sandbox_platform.World.{World, set_db, ask}
use sandbox_platform.Containers.Mounts.{require_image}

pub record NewImage : Type 0 where
  pub name : String
  pub display_name : String
  pub sif_path : String
  pub description : Option String
  pub is_public : Option Bool
  pub tags : Option (List String)
  pub default_resources : Option ResourceRequest
  pub overlay_kind : Option OverlayKind
  pub max_per_user : Option ℕ

-- `Partial<ImageInput>`: a field that is `none` is left as it is; `some none` is null.
pub record ImagePatch : Type 0 where
  pub name : Option String
  pub display_name : Option String
  pub sif_path : Option String
  pub description : Option String
  pub is_public : Option Bool
  pub tags : Option (List String)
  pub default_resources : Option ResourceRequest
  pub overlay_kind : Option OverlayKind
  pub max_per_user : Option (Option ℕ)

abbrev pub has_image_id : ℕ → ImageRow → Bool
has_image_id id i = i.id == id

abbrev pub has_name : String → ImageRow → Bool
has_name name i = str_eq i.name name

abbrev pub is_of_image : ℕ → ContainerRow → Bool
is_of_image id c = c.image_id == id

abbrev pub new_image : NewImage → ℕ → ImageRow
new_image input id = record {
  id = id;
  name = input.name;
  display_name = input.display_name;
  sif_path = input.sif_path;
  description = input.description;
  is_public = or_else input.is_public true;
  tags = input.tags;
  default_resources = input.default_resources;
  overlay_kind = or_else input.overlay_kind OverlayKind.ext3;
  max_per_user = input.max_per_user;
}

-- A column that is set where the patch has the field.
abbrev pub set_column {ℓ} : {A : Type ℓ} → Option A → Option A → Option A
set_column none old = old
set_column (some new) old = some new

-- A cap that is not positive is stored as null.
abbrev pub positive_cap : Option ℕ → Option ℕ
positive_cap none = none
positive_cap (some zero) = none
positive_cap (some (suc n)) = some (suc n)

abbrev pub set_cap : Option (Option ℕ) → Option ℕ → Option ℕ
set_cap none old = old
set_cap (some cap) old = positive_cap cap

-- The field `name` is in none of the code's columns.
abbrev pub patch_image : ImagePatch → ImageRow → ImageRow
patch_image patch i = record i {
  display_name = or_else patch.display_name i.display_name;
  sif_path = or_else patch.sif_path i.sif_path;
  description = set_column patch.description i.description;
  is_public = or_else patch.is_public i.is_public;
  tags = set_column patch.tags i.tags;
  default_resources = set_column patch.default_resources i.default_resources;
  overlay_kind = or_else patch.overlay_kind i.overlay_kind;
  max_per_user = set_cap patch.max_per_user i.max_per_user;
}

abbrev pub insert_image : NewImage → Db → Db
insert_image input db = record db { images = insert_row (new_image input) db.images }

abbrev pub update_image : ℕ → (ImageRow → ImageRow) → Db → Db
update_image id f db = record db { images = with_rows (update_where (has_image_id id) f) db.images }

abbrev pub remove_image : ℕ → Db → Db
remove_image id db = record db { images = with_rows (delete_where (has_image_id id)) db.images }

module _ {R : Type 0} where
  unfoldable pub list : Action (World R) (List ImageRow)
  list = ask (λ db. db.images.rows)

  unfoldable pub create : NewImage → Action (World R) (Option ImageRow)
  create input = do
    existing ← ask (λ db. find_where (has_name input.name) db.images.rows)
    throw_if (is_some existing) conflict
    id ← ask (λ db. db.images.next_id)
    set_db (insert_image input)
    ask (image_by_id id)

  -- Where no column is set the row is left as it is, as it is by the update of none.
  unfoldable pub update : ℕ → ImagePatch → Action (World R) (Option ImageRow)
  unfolding require_image
  update id patch = do
    require_image id
    set_db (update_image id (patch_image patch))
    ask (image_by_id id)

  unfoldable pub delete : ℕ → Action (World R) (Unit {0})
  delete id = do
    in_use ← ask (λ db. count_where (is_of_image id) db.containers.rows)
    throw_if (not (in_use == 0)) conflict
    set_db (remove_image id)
