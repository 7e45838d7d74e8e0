-- ===== src/Storage/Tree/Walks.antt =====
-- The walks of services/container-mounts.ts and services/workspace-storage.ts against what they are
-- to find out.
use sandbox_platform.Prelude.{
  ℕ, suc, ◌+◌, ◌≤◌, ◌≡◌, refl, Bool, true, false, ◌||◌, if◌then◌else◌, arith, Bool-cases, inl, inr,
}
use sandbox_platform.Action.{ok, err, bad_request}
use sandbox_platform.Storage.Tree.{
  Node, file, link, dir, Entries, nil, entry, Walk, du_walk, du_walk_all, du_bytes, guard_node,
  guard_walk, assert_dir_has_no_symlinks, stat_node, stat_walk, stat_workspace,
}

unfoldable mutual
  pub has_link : Node → Bool
  has_link (file size) = false
  has_link link = true
  has_link (dir es) = any_link es

  pub any_link : Entries → Bool
  any_link nil = false
  any_link (entry n es) = has_link n || any_link es

unfoldable mutual
  pub below : Node → ℕ
  below (file size) = 0
  below link = 0
  below (dir es) = entry_count es

  pub entry_count : Entries → ℕ
  entry_count nil = 0
  entry_count (entry n es) = suc (below n + entry_count es)

unfoldable mutual
  pub bytes : Node → ℕ
  bytes (file size) = size
  bytes link = 0
  bytes (dir es) = total_bytes es

  pub total_bytes : Entries → ℕ
  total_bytes nil = 0
  total_bytes (entry n es) = bytes n + total_bytes es

module _ (max : ℕ) where
  mutual
    unfolding guard_walk any_link entry_count

    guard_node-clean :
        (n : Node) (s : Walk)
        → has_link n ≡ false
        → s.entries + below n ≤ suc max
        → guard_node max n s ≡ (ok tt, record s { entries = s.entries + below n })
    guard_node-clean (file size) s e le = ground arith
    guard_node-clean link s e le = absurd (ground arith)
    guard_node-clean (dir es) s e le = guard_walk-clean es s e le

    guard_walk-clean :
        (es : Entries) (s : Walk)
        → any_link es ≡ false
        → s.entries + entry_count es ≤ suc max
        → guard_walk max es s ≡ (ok tt, record s { entries = s.entries + entry_count es })
    guard_walk-clean nil s e le = ground arith
    guard_walk-clean (entry n es) s e le = ground (
      arith,
      guard_node-clean n (record s { entries = suc s.entries }),
      guard_walk-clean es (record s { entries = suc s.entries + below n }),
    )

  mutual
    unfolding guard_walk any_link entry_count

    guard_node-linked :
        (n : Node) (s : Walk)
        → has_link n ≡ true
        → s.entries + below n ≤ suc max
        → (guard_node max n s).0 ≡ err bad_request
    guard_node-linked (file size) s e le = absurd (ground arith)
    guard_node-linked link s e le = refl
    guard_node-linked (dir es) s e le = guard_walk-linked es s e le

    guard_walk-linked :
        (es : Entries) (s : Walk)
        → any_link es ≡ true
        → s.entries + entry_count es ≤ suc max
        → (guard_walk max es s).0 ≡ err bad_request
    guard_walk-linked nil s e le = absurd (ground arith)
    guard_walk-linked (entry n es) s e le = ground (
      arith,
      guard_node-linked n (record s { entries = suc s.entries }),
      guard_node-clean n (record s { entries = suc s.entries }),
      guard_walk-linked es (record s { entries = suc s.entries + below n }),
    )

  mutual
    unfolding du_walk any_link entry_count total_bytes

    du_walk-clean :
        (n : Node) (s : Walk)
        → has_link n ≡ false
        → s.entries + below n ≤ max
        → du_walk max n s
          ≡ (ok tt, record { total = s.total + bytes n; entries = suc (s.entries + below n) })
    du_walk-clean (file size) s e le = ground arith
    du_walk-clean link s e le = absurd (ground arith)
    du_walk-clean (dir es) s e le =
        ground (arith, du_walk_all-clean es (record s { entries = suc s.entries }))

    du_walk_all-clean :
        (es : Entries) (s : Walk)
        → any_link es ≡ false
        → s.entries + entry_count es ≤ suc max
        → du_walk_all max es s ≡ (
          ok tt,
          record { total = s.total + total_bytes es; entries = s.entries + entry_count es },
        )
    du_walk_all-clean nil s e le = ground arith
    du_walk_all-clean (entry n es) s e le = ground (
      arith,
      du_walk-clean n s,
      du_walk_all-clean es
          (record { total = s.total + bytes n; entries = suc (s.entries + below n) }),
    )

  mutual
    unfolding du_walk any_link entry_count total_bytes

    du_walk-linked :
        (n : Node) (s : Walk)
        → has_link n ≡ true
        → s.entries + below n ≤ max
        → (du_walk max n s).0 ≡ err bad_request
    du_walk-linked (file size) s e le = absurd (ground arith)
    du_walk-linked link s e le = ground arith
    du_walk-linked (dir es) s e le =
        ground (arith, du_walk_all-linked es (record s { entries = suc s.entries }))

    du_walk_all-linked :
        (es : Entries) (s : Walk)
        → any_link es ≡ true
        → s.entries + entry_count es ≤ suc max
        → (du_walk_all max es s).0 ≡ err bad_request
    du_walk_all-linked nil s e le = absurd (ground arith)
    du_walk_all-linked (entry n es) s e le = ground (
      arith,
      du_walk-linked n s,
      du_walk-clean n s,
      du_walk_all-linked es
          (record { total = s.total + bytes n; entries = suc (s.entries + below n) }),
    )

  -- On a tree of at most one entry more than the bound, assertDirHasNoSymlinks throws BAD_REQUEST
  -- exactly if there is a symbolic link at any depth.
  pub assert_dir_has_no_symlinks-exact :
      (es : Entries)
      → entry_count es ≤ suc max
      → assert_dir_has_no_symlinks max es ≡ (if any_link es then err bad_request else ok tt)
  unfolding assert_dir_has_no_symlinks
  assert_dir_has_no_symlinks-exact es le = elim (Bool-cases (any_link es)) [
    | inl e ↦ ground (arith, guard_walk-linked es (record { total = 0; entries = 0 }) e)
    | inr e ↦ ground (arith, guard_walk-clean es (record { total = 0; entries = 0 }) e)
  ]

  -- On an item with at most `max` entries below it, duBytes gives the bytes of its files, and throws
  -- BAD_REQUEST exactly if there is a symbolic link in it.
  pub du_bytes-exact :
      (n : Node)
      → below n ≤ max
      → du_bytes max n ≡ (if has_link n then err bad_request else ok (bytes n))
  unfolding du_bytes
  du_bytes-exact n le = elim (Bool-cases (has_link n)) [
    | inl e ↦ ground (arith, du_walk-linked n (record { total = 0; entries = 0 }) e)
    | inr e ↦ ground (arith, du_walk-clean n (record { total = 0; entries = 0 }) e)
  ]

unfoldable mutual
  pub files : Node → ℕ
  files (file size) = 1
  files link = 0
  files (dir es) = file_count es

  pub file_count : Entries → ℕ
  file_count nil = 0
  file_count (entry n es) = files n + file_count es

mutual
  unfolding stat_walk file_count total_bytes

  stat_node-sums : (n : Node) (s : ℕ × ℕ) → stat_node n s ≡ (s.0 + bytes n, s.1 + files n)
  stat_node-sums (file size) s = ground arith
  stat_node-sums link s = ground arith
  stat_node-sums (dir es) s = stat_walk-sums es s

  stat_walk-sums :
      (es : Entries) (s : ℕ × ℕ) → stat_walk es s ≡ (s.0 + total_bytes es, s.1 + file_count es)
  stat_walk-sums nil s = ground arith
  stat_walk-sums (entry n es) s =
      ground (arith, stat_node-sums n s, stat_walk-sums es (s.0 + bytes n, s.1 + files n))

-- statWorkspace gives the bytes and the number of the files at any depth, whatever links there are.
pub stat_workspace-sums : (es : Entries) → stat_workspace es ≡ (total_bytes es, file_count es)
unfolding stat_workspace
stat_workspace-sums es = ground (arith, stat_walk-sums es (0, 0))
