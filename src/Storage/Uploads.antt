-- ===== src/Storage/Uploads.antt =====
-- services/workspace-storage.ts: streamed and chunked uploads. An upload session is its meta.json,
-- the sizes of its parts in the order of their numbers' first arrival, and the time at which its
-- directory last changed.
pub mod Accounting
use sandbox_platform.Prelude.{
  ℕ, ◌+◌, ◌-◌, ◌*◌, String, Bool, true, false, not, ◌&&◌, ◌||◌, Option, none, some, or_else, List,
  [], ◌∷◌, ◌++◌, ◌==◌, ltb, leb, if◌then◌else◌, length, find_where, delete_where,
}
use sandbox_platform.Action.{
  Outcome, ok, err, Action, ◌>>=◌, ◌>>◌, pure, gets, modify, throw, throw_if, or_throw, AppError,
  bad_request, not_found, http_error,
}
use sandbox_platform.Storage.Paths.{Chars, same}

pub record UploadMeta : Type 0 where
  pub user_id : ℕ
  pub ws_id : ℕ
  pub name : Chars
  pub dir_rel : Chars
  pub size : Option ℕ
  pub received_bytes : Option ℕ
  pub created_at : ℕ

pub record Part : Type 0 where
  pub number : ℕ
  pub size : ℕ

pub record Upload : Type 0 where
  pub upload_id : Chars
  pub meta : Option UploadMeta
  pub parts : List Part
  pub modified_at : ℕ

abbrev pub too_large : AppError
too_large = http_error 413 "UPLOAD_TOO_LARGE"

abbrev pub is_word : ℕ → Bool
is_word c =
    (leb 65 c && leb c 90)
    || (leb 97 c && leb c 122)
    || (leb 48 c && leb c 57)
    || c == 95
    || c == 45

abbrev pub all_word : Chars → Bool
all_word [] = true
all_word (c ∷ s) = is_word c && all_word s

-- /^[A-Za-z0-9_-]{6,64}$/
unfoldable pub is_upload_id : Chars → Bool
is_upload_id s = all_word s && leb 6 (length s) && leb (length s) 64

abbrev pub has_upload_id : Chars → Upload → Bool
has_upload_id id u = same id u.upload_id

-- The directory of that name holds this session.
abbrev pub set_upload : Chars → Upload → List Upload → List Upload
set_upload id u [] = u ∷ []
set_upload id u (v ∷ uploads) =
    let rest = set_upload id u uploads in if has_upload_id id v then u ∷ uploads else v ∷ rest

-- createUpload; the directory is made if it is not there, and what is in it stays.
unfoldable pub create_upload : Chars → UploadMeta → ℕ → List Upload → List Upload
create_upload id meta now uploads =
    let fresh = some (record meta { created_at = now; received_bytes = some 0 }) in
    elim (find_where (has_upload_id id) uploads) [
      | none ↦
          set_upload id (record { upload_id = id; meta = fresh; parts = []; modified_at = now })
            uploads
      | some u ↦ set_upload id (record u { meta = fresh; modified_at = now }) uploads
    ]

-- readUpload, with the session that the meta stands in
unfoldable pub read_upload : Chars → List Upload → Option (Upload × UploadMeta)
unfolding is_upload_id
read_upload id uploads =
    if is_upload_id id
    then elim (find_where (has_upload_id id) uploads) [
      | none ↦ none
      | some u ↦ elim u.meta [ none ↦ none | some m ↦ some (u, m) ]
    ]
    else none

abbrev pub stored_size : ℕ → List Part → ℕ
stored_size n [] = 0
stored_size n (p ∷ parts) = let rest = stored_size n parts in if p.number == n then p.size else rest

abbrev pub put_part : ℕ → ℕ → List Part → List Part
put_part n size [] = record { number = n; size = size } ∷ []
put_part n size (p ∷ parts) =
    let rest = put_part n size parts in
    if p.number == n then record { number = n; size = size } ∷ parts else p ∷ rest

-- sumStoredParts
abbrev pub sum_stored_parts : List Part → ℕ
sum_stored_parts [] = 0
sum_stored_parts (p ∷ parts) = p.size + sum_stored_parts parts

-- The total with the new part in place of what its number held; where the counter is less than
-- that, the code's total is negative, which passes the test and is stored as 0.
unfoldable pub next_total : Upload → UploadMeta → ℕ → ℕ → ℕ
next_total u meta part size =
    or_else meta.received_bytes (sum_stored_parts u.parts) + size - stored_size part u.parts

abbrev pub store_part : ℕ → ℕ → ℕ → ℕ → UploadMeta → Upload → Upload
store_part part size total now meta u = record u {
  parts = put_part part size u.parts;
  meta = some (record meta { received_bytes = some total });
  modified_at = now;
}

-- writeUploadPart, for a part number that is a natural number: any other number is refused alike.
-- `part_max` and `max_bytes` are what uploadPartMaxBytes and effectiveWorkspaceUploadMaxBytes give.
unfoldable pub write_upload_part : ℕ → ℕ → ℕ → Chars → ℕ → ℕ → Action (List Upload) ℕ
unfolding read_upload next_total
write_upload_part part_max max_bytes now id part size = do
  throw_if (ltb part 1 || ltb 100000 part) bad_request
  throw_if (ltb part_max size) too_large
  found ← or_throw (← gets (read_upload id)) not_found
  throw_if (ltb max_bytes (next_total found.0 found.1 part size)) too_large
  modify (
      set_upload id
        (store_part part size (next_total found.0 found.1 part size) now found.1 found.0))
  pure size

-- The running total over the parts of writeUploadPartsToFile, in the order of their names.
abbrev pub concatenated : ℕ → ℕ → List Part → Outcome ℕ
concatenated max_bytes total [] = ok total
concatenated max_bytes total (p ∷ parts) =
    let rest = concatenated max_bytes (total + p.size) parts in
    if ltb max_bytes (total + p.size) then err too_large else rest

-- writeUploadPartsToFile up to the rename, `before_commit` being the quota check.
unfoldable pub write_upload_parts_to_file : ℕ → (ℕ → Outcome (Unit {0})) → List Part → Outcome ℕ
write_upload_parts_to_file max_bytes before_commit [] = err bad_request
write_upload_parts_to_file max_bytes before_commit (p ∷ parts) =
    elim (concatenated max_bytes 0 (p ∷ parts)) [
      | ok total ↦ elim (before_commit total) [ ok a ↦ ok total | err e ↦ err e ]
      | err e ↦ err e
    ]

-- The counter of writeFileFromStream over the chunks of a body.
unfoldable pub received : ℕ → ℕ → List ℕ → Outcome ℕ
received max_bytes total [] = ok total
received max_bytes total (chunk ∷ chunks) =
    let rest = received max_bytes (total + chunk) chunks in
    if ltb max_bytes (total + chunk) then err too_large else rest

-- removeUpload
unfoldable pub remove_upload : Chars → List Upload → List Upload
remove_upload id uploads = delete_where (has_upload_id id) uploads

-- sweepStaleUploads
unfoldable pub sweep_stale_uploads : ℕ → ℕ → List Upload → List Upload
sweep_stale_uploads ttl_hours now uploads =
    delete_where (λ u. ltb (u.modified_at + ttl_hours * 3600000) now) uploads
