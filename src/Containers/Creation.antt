-- ===== src/Containers/Creation.antt =====
-- What `create` leaves behind, on every branch.
use sandbox_platform.Prelude.{
  ℕ, subst, String, ◌<◌, ◌≡◌, ◌≢◌, ◌⊎◌, inl, inr, Bool, false, none, some, List, arith,
  Option-cases, or_else,
}
use sandbox_platform.Action.{AppError, Outcome, ok, err, Outcome-cases, not_found}
use sandbox_platform.Db.{Db}
use sandbox_platform.Db.Rows.{ContainerRow, ImageRow, QuotaRow, Status}
use sandbox_platform.Db.Queries.{image_by_id, container_by_id, image_instances}
use sandbox_platform.Quota.{
  tier_of, assert_can_create, assert_image_allowed, assert_image_instance_limit, refuses_image,
}
use sandbox_platform.Quota.Admission.{Fits}
use sandbox_platform.Containers.Host.{Host, World, ContainerHandle, resolve_image_path}
use sandbox_platform.Containers.Mounts.{MountDraft}
use sandbox_platform.Containers.Create.{
  CreateInput, Plan, admit, plan, commit, create, provision, record_running, update_container,
  mark_error, requested, setup_rows, creation_request, insert_container_row,
}
use sandbox_platform.Containers.Reads.{plan-db}

-- What the request has met when a row is inserted.
pub record Admitted (db : Db) (user_id : ℕ) (input : CreateInput) (is_admin : Bool)
    (image : ImageRow) (quota : QuotaRow) : Type 0 where
  pub image_found : image_by_id input.image_id db ≡ some image
  pub tier : tier_of user_id db ≡ some quota
  pub allowed : refuses_image image quota is_admin ≡ false
  pub fits : Fits db user_id quota (requested input image)
  pub instances :
      (or_else image.max_per_user 0 ≡ 0)
      ⊎ (image_instances user_id image.id db < or_else image.max_per_user 0)

module _ {R : Type 0} (host : Host R) where
  admit-Admitted :
      (user_id : ℕ) (input : CreateInput) (is_admin : Bool) (w : World R)
      → ((e : AppError) × ((admit host user_id input is_admin w).0 ≡ err e))
        ⊎ ((image : ImageRow) × (quota : QuotaRow) × ((admit host user_id input is_admin w).0
              ≡ ok (image, requested input image))
            × Admitted w.db user_id input is_admin image quota)
  unfolding admit assert_can_create assert_image_allowed assert_image_instance_limit
  admit-Admitted user_id input is_admin w =
      elim (Outcome-cases (admit host user_id input is_admin w).0) [
        | inl (x, e) ↦ elim (Option-cases (image_by_id input.image_id w.db)) [
          | inl f ↦ absurd (ground arith)
          | inr (image, f) ↦ elim (Option-cases (tier_of user_id w.db)) [
            | inl g ↦ absurd (ground arith)
            | inr (quota, g) ↦ inr (image, quota, ground arith, ground arith)
          ]
        ]
        | inr (x, e) ↦ inl (x, e)
      ]

  -- The plan of a request that got as far as the row.
  plan-row :
      (user_id : ℕ) (input : CreateInput) (is_admin : Bool) (w : World R) (p : Plan)
      → (plan host user_id input is_admin w).0 ≡ ok p
      → (p.row.user_id ≡ user_id)
        × (p.row.status ≡ Status.creating)
        × (p.row.image_id ≡ input.image_id)
        × ((e : AppError) → (admit host user_id input is_admin w).0 ≢ err e)
  unfolding plan
  plan-row user_id input is_admin w p e =
      (ground arith, ground arith, ground arith, λ x f. ground arith)

  plan-Admitted :
      (user_id : ℕ) (input : CreateInput) (is_admin : Bool) (w : World R) (p : Plan)
      → (plan host user_id input is_admin w).0 ≡ ok p
      → (image : ImageRow) × (quota : QuotaRow) × Admitted w.db user_id input is_admin image quota
  plan-Admitted user_id input is_admin w p e = elim (admit-Admitted user_id input is_admin w) [
    | inl (x, f) ↦ absurd ((plan-row user_id input is_admin w p e).3 x f)
    | inr (image, quota, f, h) ↦ (image, quota, h)
  ]

  -- The executor's answer.
  abbrev launch : Plan → String → World R → Outcome ContainerHandle
  launch p path w =
      (host.executor.create (creation_request p.image p.row p.seed p.setup p.instance_name path)
        w.runtime).0

  abbrev require : ℕ → Db → Outcome ContainerRow
  require id db = elim (container_by_id id db) [ none ↦ err not_found | some c ↦ ok c ]

  provision-cases :
      (id : ℕ) (p : Plan) (w : World R)
      → let (r, v) = provision host id p.image p.row p.seed p.setup p.instance_name w in
        ((r ≡ ok tt)
          × ((handle : ContainerHandle) × (v.db
                ≡ record_running id handle (setup_rows p.setup) w.db)))
        ⊎ ((e : AppError) × (r ≡ err e) × (v.db ≡ w.db))
  unfolding provision
  provision-cases id p w = elim (Outcome-cases (resolve_image_path host p.image.sif_path)) [
    | inr (x, e) ↦ inr (x, ground arith, ground arith)
    | inl (path, e) ↦ elim (Outcome-cases (launch p path w)) [
      | inr (x, f) ↦ inr (x, ground arith, ground arith)
      | inl (handle, f) ↦ inl (ground arith, (handle, ground arith))
    ]
  ]

  -- How the part from the insertion on may end: the new row is in error, or it runs.
  abbrev pub Finished : ContainerRow → Db → Outcome ContainerRow × World R → Type 0
  Finished row d (r, v) =
      ((e : AppError) × (r ≡ err e)
        × (v.db
            ≡ update_container d.containers.next_id (mark_error e) (insert_container_row row d)))
      ⊎ ((handle : ContainerHandle) × (drafts : List MountDraft) × (r
            ≡ require d.containers.next_id v.db)
          × (v.db ≡ record_running d.containers.next_id handle drafts (insert_container_row row d)))

  commit-Finished : (p : Plan) (w : World R) → Finished p.row w.db (commit host p w)
  unfolding commit
  commit-Finished p w =
      elim (provision-cases w.db.containers.next_id p
        (record w { db = insert_container_row p.row w.db })) [
          | inl (e, (handle, f)) ↦ inr (handle, setup_rows p.setup, ground arith, ground arith)
          | inr (x, e, f) ↦ inl (x, ground arith, ground arith)
        ]

  -- How `create` may end: refused with nothing written; or the request was admitted and there is one
  -- new row, in error or running.
  abbrev pub Created : ℕ → CreateInput → Bool → World R → Outcome ContainerRow × World R → Type 0
  Created user_id input is_admin w (r, v) =
      ((e : AppError) × (r ≡ err e) × (v.db ≡ w.db))
      ⊎ ((row : ContainerRow) × (image : ImageRow) × (quota : QuotaRow) × Admitted w.db user_id
            input is_admin image quota
          × (row.user_id ≡ user_id)
          × (row.status ≡ Status.creating)
          × (row.image_id ≡ input.image_id)
          × Finished row w.db (r, v))

  pub create-Created :
      (user_id : ℕ) (input : CreateInput) (is_admin : Bool) (w : World R)
      → Created user_id input is_admin w (create host user_id input is_admin w)
  unfolding create
  create-Created user_id input is_admin w =
      elim (Outcome-cases (plan host user_id input is_admin w).0) [
        | inr (x, e) ↦ inl (x, ground arith, ground (arith, plan-db host user_id input is_admin w))
        | inl (p, e) ↦
            let (image, quota, h) = plan-Admitted user_id input is_admin w p e in
            let (owner, state, from, _) = plan-row user_id input is_admin w p e in
            inr (p.row, image, quota, h, owner, state, from, finished p e)
      ]
    where
      same :
          (p : Plan)
          → (plan host user_id input is_admin w).0 ≡ ok p
          → commit host p (plan host user_id input is_admin w).1
            ≡ create host user_id input is_admin w
      same p e = ground arith

      finished :
          (p : Plan)
          → (plan host user_id input is_admin w).0 ≡ ok p
          → Finished p.row w.db (create host user_id input is_admin w)
      finished p e =
          subst (λ d. Finished p.row d (create host user_id input is_admin w))
            (plan-db host user_id input is_admin w)
            (subst (Finished p.row (plan host user_id input is_admin w).1.db) (same p e)
              (commit-Finished p (plan host user_id input is_admin w).1))
