-- ===== src/Tests/Storing.antt =====
-- Paths that clients send for workspace 1 of user 7, with the directory of workspace 10 beside it.
use sandbox_platform.Prelude.{
  find_where, ◌≤◌, zero, suc, ℕ, ◌+◌, ◌++◌, ◌≡◌, refl, arith, false, some, none, List, [], ◌∷◌, All,
}
use sandbox_platform.Action.{ok, err, bad_request}
use sandbox_platform.Storage.Paths.{
  Chars, slash, has, chars, strip_slashes, resolve, enter, workspace_dir, resolve_in_workspace,
  escapes, render,
}
use sandbox_platform.Storage.Names.{
  sanitize_mount_name, numbered, free_name, materialize_input, remove_staging_entry,
}
use sandbox_platform.Storage.Names.Staging.{materialize-remove}
use sandbox_platform.Storage.Tree.{file, link, nil, entry, guard_walk, assert_dir_has_no_symlinks}
use sandbox_platform.Storage.Uploads.{Upload, has_upload_id, sum_stored_parts, write_upload_part}
use sandbox_platform.Storage.Uploads.Accounting.{IsCounted, write_upload_part-within}
use sandbox_platform.Storage.Containment.{IsSegment, contained, resolve_in_workspace-contained}

abbrev digit : ℕ → Chars
digit n = (n + 48) ∷ []

abbrev own : List Chars
own = workspace_dir digit (chars "data" ∷ []) 7 1

abbrev sly : Chars
sly = chars "/src/../../ws-10/secret"

sly_refused : resolve_in_workspace own sly ≡ err bad_request
unfolding resolve_in_workspace resolve enter escapes render
sly_refused = refl

-- A path that leaves the root and comes back is within it.
back_again :
    resolve_in_workspace own (chars "../ws-1//./notes.txt") ≡ ok (own ++ chars "notes.txt" ∷ [])
unfolding resolve_in_workspace resolve enter escapes render
back_again = refl

proper : {c : ℕ} {s : Chars} → has slash (c ∷ s) ≡ false → IsSegment (c ∷ s)
proper e = record { full = λ k. absurd (ground arith); plain = e }

own-IsSegment : All IsSegment own
own-IsSegment = (proper refl, (proper refl, (proper refl, tt)))

resolve_in_workspace-contained_example :
    resolve_in_workspace own sly ≡ contained own (strip_slashes sly)
resolve_in_workspace-contained_example = resolve_in_workspace-contained own sly own-IsSegment

abbrev staged : List (Chars × ℕ)
staged = (chars "a.txt", 1) ∷ (chars "a-1.txt", 2) ∷ []

-- The first free name, with the number before the extension.
second_copy : (materialize_input digit 3 (chars "a.txt") staged).0 ≡ ok (chars "a-2.txt")
unfolding materialize_input free_name numbered
second_copy = refl

materialize-remove_example :
    remove_staging_entry (chars "a-2.txt") ((materialize_input digit 3 (chars "a.txt") staged).1)
    ≡ staged
unfolding sanitize_mount_name
materialize-remove_example =
    materialize-remove digit 3 (chars "a.txt") staged (chars "a-2.txt") second_copy refl
      (λ e. absurd (ground arith))

-- A name of the full length, once taken, gets a number that is cut off again on removal: the entry
-- that goes is the other one.
abbrev repeated : ℕ → Chars
repeated zero = []
repeated (suc n) = 97 ∷ repeated n

abbrev crowded : List (Chars × ℕ)
crowded = (repeated 120, 1) ∷ []

other_removed :
    remove_staging_entry
      (repeated 120 ++ chars "-1")
      ((materialize_input digit 2 (repeated 120) crowded).1)
    ≡ (repeated 120 ++ chars "-1", 2) ∷ []
unfolding remove_staging_entry sanitize_mount_name materialize_input free_name numbered
other_removed = refl

-- A link behind more entries than the bound is not seen.
unseen_link :
    assert_dir_has_no_symlinks 1 (entry (file 0) (entry (file 0) (entry link nil))) ≡ ok tt
unfolding assert_dir_has_no_symlinks guard_walk
unseen_link = refl

abbrev open_upload : Upload
open_upload = record {
  upload_id = chars "upload";
  meta = some (record {
    user_id = 7;
    ws_id = 1;
    name = chars "f";
    dir_rel = [];
    size = none;
    received_bytes = some 60;
    created_at = 0;
  });
  parts = record { number = 1; size = 60 } ∷ [];
  modified_at = 0;
}

open_upload-IsCounted : IsCounted open_upload
open_upload-IsCounted m r e f = ground arith

-- Part 1 again, with 90 bytes in place of 60, under a cap of 100.
replaced : (write_upload_part 100 100 5 (chars "upload") 1 90 (open_upload ∷ [])).0 ≡ ok 90
unfolding write_upload_part
replaced = refl

write_upload_part-within_example :
    All IsCounted ((write_upload_part 100 100 5 (chars "upload") 1 90 (open_upload ∷ [])).1)
    × ((u : Upload) × (find_where
            (has_upload_id (chars "upload"))
            ((write_upload_part 100 100 5 (chars "upload") 1 90 (open_upload ∷ [])).1)
          ≡ some u)
        × (sum_stored_parts u.parts ≤ 100))
write_upload_part-within_example =
    write_upload_part-within 100 100 5 (chars "upload") 1 90 (open_upload ∷ []) 90
      (open_upload-IsCounted, tt) replaced
