-- ===== src/Images/Catalogue.antt =====
-- What the catalogue keeps: its names are unique, and no container loses its image.
use sandbox_platform.Prelude.{
  ℕ, ◌≤◌, ◌<◌, ◌≡◌, ◌⊎◌, inl, inr, refl, subst, arith, String, false, none, some, List, [], ◌∷◌,
  ◌++◌, ◌==◌, Bool-cases, Option-cases, str_eq, eq_iff, find_where, count_where, delete_where,
  count_where-append, count_where-none, count_where-update, count_where-delete_le,
  find_where-delete_self, find_where-append_new, find_where-update_self,
}
use sandbox_platform.Action.{ok, err, conflict, not_found}
use sandbox_platform.Db.{Db}
use sandbox_platform.Db.Rows.{ImageRow}
use sandbox_platform.Db.Queries.{image_by_id}
use sandbox_platform.World.{World}
use sandbox_platform.Containers.Mounts.{require_image}
use sandbox_platform.Images.{
  NewImage, ImagePatch, has_image_id, has_name, is_of_image, new_image, patch_image, insert_image,
  create, update, delete,
}

abbrev pub HasUniqueNames : Db → Type 0
HasUniqueNames db = (name : String) → count_where (has_name name) db.images.rows ≤ 1

-- An appended image whose name no row has leaves at most one row of each name.
one_name :
    (input : NewImage) (rows : List ImageRow) (id : ℕ) (name : String)
    → find_where (has_name input.name) rows ≡ none
    → count_where (has_name name) rows ≤ 1
    → count_where (has_name name) (rows ++ new_image input id ∷ []) ≤ 1
one_name input rows id name e h = elim (Bool-cases (str_eq input.name name)) [
  | inl same ↦
      let none_yet : count_where (has_name name) rows ≡ 0 =
        subst (λ n. count_where (has_name n) rows ≡ 0) ((eq_iff input.name name).0 same)
          (count_where-none (has_name input.name) rows e) in
      ground (arith, count_where-append (has_name name) rows (new_image input id ∷ []))
  | inr other ↦ ground (arith, count_where-append (has_name name) rows (new_image input id ∷ []))
]

-- Where the names of the images are unique, they are so after each of the three writes of the
-- service, whether it returns or throws.
pub writes-HasUniqueNames :
    {R : Type 0} (w : World R) (input : NewImage) (id : ℕ) (patch : ImagePatch)
    → HasUniqueNames w.db
    → HasUniqueNames (create input w).1.db
      × HasUniqueNames (update id patch w).1.db
      × HasUniqueNames (delete id w).1.db
unfolding create update delete require_image
writes-HasUniqueNames w input id patch unique = (
  λ name. elim (Option-cases (find_where (has_name input.name) w.db.images.rows)) [
    | inl free ↦
        ground (arith, unique name, one_name input w.db.images.rows w.db.images.next_id name free)
    | inr (_, taken) ↦ ground (arith, unique name)
  ],
  λ name. ground (
    arith,
    unique name,
    count_where-update (has_image_id id) (has_name name) (patch_image patch) w.db.images.rows
        (λ i e. refl),
  ),
  λ name. ground (
    arith,
    unique name,
    count_where-delete_le (has_image_id id) (has_name name) w.db.images.rows,
  ),
)

other_found :
    (id other : ℕ) (rows : List ImageRow)
    → (id == other) ≡ false
    → find_where (has_image_id other) (delete_where (has_image_id id) rows)
      ≡ find_where (has_image_id other) rows
other_found id other [] ne = refl
other_found id other (i ∷ rows) ne = ground (arith, other_found id other rows ne)

-- `delete` of an image that some container refers to, destroyed or not, throws CONFLICT and leaves
-- the database as it was; else it returns, the image is found no more, and each image that a
-- container refers to is found as before.
pub delete_keeps_used :
    {R : Type 0} (w : World R) (id : ℕ)
    → let (r, v) = delete id w in
      ((0 < count_where (is_of_image id) w.db.containers.rows) × (r ≡ err conflict) × (v.db ≡ w.db))
      ⊎ ((r ≡ ok tt)
          × (image_by_id id v.db ≡ none)
          × (v.db.containers ≡ w.db.containers)
          × ((other : ℕ)
              → 0 < count_where (is_of_image other) w.db.containers.rows
              → image_by_id other v.db ≡ image_by_id other w.db))
unfolding delete
delete_keeps_used w id =
    elim (Bool-cases (count_where (is_of_image id) w.db.containers.rows == 0)) [
      | inl unused ↦ inr (
        ground arith,
        ground (arith, find_where-delete_self (has_image_id id) w.db.images.rows),
        ground arith,
        λ other used. elim (Bool-cases (id == other)) [
          | inl same ↦
              let equal : other ≡ id = ground arith in
              let used_too : 0 < count_where (is_of_image id) w.db.containers.rows =
                subst (λ n. 0 < count_where (is_of_image n) w.db.containers.rows) equal used in
              ground arith
          | inr ne ↦ ground (arith, other_found id other w.db.images.rows ne)
        ],
      )
      | inr used ↦ inl (ground arith, ground arith, ground arith)
    ]

-- Where the ids of the images are below the next one and the name is free, `create` returns the new
-- image with the defaults filled in, and it is found under its id; the rows before it stay.
pub create_returns :
    {R : Type 0} (w : World R) (input : NewImage)
    → count_where (has_image_id w.db.images.next_id) w.db.images.rows ≡ 0
    → find_where (has_name input.name) w.db.images.rows ≡ none
    → let (r, v) = create input w in
      (r ≡ ok (some (new_image input w.db.images.next_id))) × (v.db ≡ insert_image input w.db)
unfolding create
create_returns w input fresh free = (
  ground (
    arith,
    find_where-append_new (has_image_id w.db.images.next_id) w.db.images.rows
        (new_image input w.db.images.next_id),
  ),
  ground arith,
)

-- `update` of an image that is found returns it patched, with its name and id kept; of one that is
-- not found it throws NOT_FOUND and leaves the database as it was.
pub update_patches :
    {R : Type 0} (w : World R) (id : ℕ) (patch : ImagePatch)
    → let (r, v) = update id patch w in
      ((image_by_id id w.db ≡ none) × (r ≡ err not_found) × (v.db ≡ w.db))
      ⊎ ((i : ImageRow) × (image_by_id id w.db ≡ some i)
          × (r ≡ ok (some (patch_image patch i)))
          × (image_by_id id v.db ≡ some (patch_image patch i)))
unfolding update require_image
update_patches w id patch = elim (Option-cases (image_by_id id w.db)) [
  | inl missing ↦ inl (missing, ground arith, ground arith)
  | inr (i, found) ↦
      let patched =
        find_where-update_self (has_image_id id) (patch_image patch) w.db.images.rows i (λ j e. e)
          found in
      inr (i, found, ground (arith, patched), ground (arith, patched))
]
