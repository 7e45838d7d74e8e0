-- ===== src/Workspaces/Creation.antt =====
-- A workspace is created whole or not at all.
use sandbox_platform.Prelude.{
  ℕ, ◌≤◌, ◌<◌, ◌≡◌, refl, ap, ◌⊎◌, inl, inr, some, List, [], ◌∷◌, ◌++◌, arith, All, find_where,
  count_where, update_where, delete_where, count_where-none, update_where-append, update_where-none,
  delete_where-append, delete_where-none, find_where-append_new, Option-cases, Bool-cases, leb,
}
use sandbox_platform.Action.{not_found, quota_exceeded, AppError, ok, err, Outcome-cases, conflict}
use sandbox_platform.Db.{Db}
use sandbox_platform.Db.Rows.{WorkspaceRow, QuotaRow}
use sandbox_platform.Db.Queries.{workspace_count}
use sandbox_platform.Quota.{tier_of, assert_can_create_workspace}
use sandbox_platform.World.{World}
use sandbox_platform.Containers.Mounts.{require_owned_workspace}
use sandbox_platform.Workspaces.{
  WorkspaceStorage, NewWorkspace, create, has_workspace_id, same_name, new_workspace,
  insert_workspace, locate, make_dir_or_remove,
}

-- Ids are given in ascending order.
abbrev pub HasFreshWorkspaceIds : Db → Type 0
HasFreshWorkspaceIds d = All (λ ws. ws.id < d.workspaces.next_id) d.workspaces.rows

++-[] : (xs : List WorkspaceRow) → xs ++ [] ≡ xs
++-[] [] = refl
++-[] (x ∷ xs) = ap (λ ys. x ∷ ys) (++-[] xs)

none_has_next :
    (n m : ℕ) (rows : List WorkspaceRow)
    → m ≤ n
    → All (λ ws. ws.id < m) rows
    → count_where (has_workspace_id n) rows ≡ 0
none_has_next n m [] h a = refl
none_has_next n m (c ∷ rows) h a = ground (arith, none_has_next n m rows h a.1)

module _ {R : Type 0} (storage : WorkspaceStorage R) where
  -- The row that `create` returns.
  abbrev pub made : ℕ → NewWorkspace → Db → WorkspaceRow
  made user_id input d =
      locate user_id d.workspaces.next_id (new_workspace user_id input d.workspaces.next_id)

  located_rows :
      (user_id : ℕ) (input : NewWorkspace) (d : Db)
      → HasFreshWorkspaceIds d
      → let next = d.workspaces.next_id in
        let rows = (insert_workspace user_id input d).workspaces.rows in
        (update_where (has_workspace_id next) (locate user_id next) rows
          ≡ d.workspaces.rows ++ made user_id input d ∷ [])
        × (delete_where (has_workspace_id next) rows ≡ d.workspaces.rows)
        × (find_where (has_workspace_id next) (d.workspaces.rows ++ made user_id input d ∷ [])
            ≡ some (made user_id input d))
  located_rows user_id input d h =
      let next = d.workspaces.next_id in
      let fresh = none_has_next next next d.workspaces.rows (omega arith) h in
      (
        rw
            (
              update_where-append (has_workspace_id next) (locate user_id next) d.workspaces.rows
                  (_ ∷ []),
              update_where-none (has_workspace_id next) (locate user_id next) d.workspaces.rows
                  fresh,
            )
            (ground arith),
        rw
            (
              delete_where-append (has_workspace_id next) d.workspaces.rows (_ ∷ []),
              delete_where-none (has_workspace_id next) d.workspaces.rows fresh,
            )
            (ground (arith, ++-[] d.workspaces.rows)),
        find_where-append_new (has_workspace_id next) d.workspaces.rows (made user_id input d) fresh
            (ground arith),
      )

  -- Where the ids are fresh, `create` leaves the workspaces as they were and throws; or it returns the
  -- new workspace and adds it alone, in a place of its own, for a user who had no workspace of that name and
  -- fewer than the tier's `max_workspaces_per_user`.
  pub create_whole_or_not :
      (user_id : ℕ) (input : NewWorkspace) (w : World R)
      → HasFreshWorkspaceIds w.db
      → let (r, v) = create storage user_id input w in
        ((x : AppError) × (r ≡ err x) × (v.db.workspaces.rows ≡ w.db.workspaces.rows))
        ⊎ ((quota : QuotaRow) × (tier_of user_id w.db ≡ some quota)
            × (workspace_count user_id w.db < quota.max_workspaces_per_user)
            × (count_where (same_name user_id input.name) w.db.workspaces.rows ≡ 0)
            × (r ≡ ok (made user_id input w.db))
            × (v.db.workspaces.rows ≡ w.db.workspaces.rows ++ made user_id input w.db ∷ []))
  unfolding create make_dir_or_remove require_owned_workspace assert_can_create_workspace
  create_whole_or_not user_id input w h = elim (Option-cases (tier_of user_id w.db)) [
    | inl e ↦ inl (not_found, ground arith, ground arith)
    | inr (quota, e) ↦
        elim (Bool-cases (leb quota.max_workspaces_per_user (workspace_count user_id w.db))) [
          | inl f ↦ inl (quota_exceeded, ground arith, ground arith)
          | inr f ↦
              elim (Option-cases (find_where (same_name user_id input.name) w.db.workspaces.rows)) [
                | inr (dup, g) ↦ inl (conflict, ground arith, ground arith)
                | inl g ↦
                    elim (Outcome-cases
                      (storage.ensure_workspace_dir user_id w.db.workspaces.next_id w.runtime).0) [
                        | inr (x, k) ↦
                            inl (x, ground arith, ground (arith, located_rows user_id input w.db h))
                        | inl (u, k) ↦ inr (
                          quota,
                          e,
                          ground arith,
                          count_where-none (same_name user_id input.name) w.db.workspaces.rows g,
                          ground (arith, located_rows user_id input w.db h),
                          ground (arith, located_rows user_id input w.db h),
                        )
                      ]
              ]
        ]
  ]
