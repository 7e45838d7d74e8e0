-- ===== src/Storage/Uploads/Accounting.antt =====
-- services/workspace-storage.ts: what an upload session stores is what it counts, and stays within
-- the cap.
use sandbox_platform.Prelude.{
  ℕ, ◌+◌, ◌*◌, ◌≤◌, ◌≡◌, subst, sym, inl, inr, true, none, some, List, [], ◌∷◌, arith, All,
  All-delete, Bool-cases, Option-cases, find_where, find_where-holds, ltb,
}
use sandbox_platform.Action.{ok}
use sandbox_platform.Storage.Paths.{Chars}
use sandbox_platform.Storage.Uploads.{
  UploadMeta, Part, Upload, has_upload_id, set_upload, create_upload, stored_size, put_part,
  sum_stored_parts, next_total, store_part, write_upload_part, remove_upload, sweep_stale_uploads,
}

-- The counter of a session, where it has one, is the sum of its parts.
abbrev pub IsCounted : Upload → Type 0
IsCounted u =
    (m : UploadMeta) (r : ℕ)
    → u.meta ≡ some m
    → m.received_bytes ≡ some r
    → r ≡ sum_stored_parts u.parts

stored_size-le : (n : ℕ) (parts : List Part) → stored_size n parts ≤ sum_stored_parts parts
stored_size-le n [] = omega arith
stored_size-le n (p ∷ parts) = ground (arith, stored_size-le n parts)

sum-put_part :
    (n size : ℕ) (parts : List Part)
    → sum_stored_parts (put_part n size parts) + stored_size n parts ≡ sum_stored_parts parts + size
sum-put_part n size [] = ground arith
sum-put_part n size (p ∷ parts) = ground (arith, sum-put_part n size parts)

-- The total that is stored is the sum of the parts once the new one is written.
next_total-sum :
    (u : Upload) (meta : UploadMeta) (part size : ℕ)
    → IsCounted u
    → u.meta ≡ some meta
    → next_total u meta part size ≡ sum_stored_parts (put_part part size u.parts)
unfolding next_total
next_total-sum u meta part size c e = elim (Option-cases meta.received_bytes) [
  | inl none_yet ↦ ground (arith, sum-put_part part size u.parts)
  | inr (r, known) ↦ ground (arith, sum-put_part part size u.parts, c meta r e known)
]

All-set_upload :
    (id : Chars) (u : Upload) (uploads : List Upload)
    → IsCounted u
    → All IsCounted uploads
    → All IsCounted (set_upload id u uploads)
All-set_upload id u [] c h = (c, tt)
All-set_upload id u (v ∷ uploads) c h = elim (Bool-cases (has_upload_id id v)) [
  | inl e ↦ rw e (c, h.1)
  | inr e ↦ rw e (h.0, All-set_upload id u uploads c h.1)
]

find_where-set_upload :
    (id : Chars) (u : Upload) (uploads : List Upload)
    → has_upload_id id u ≡ true
    → find_where (has_upload_id id) (set_upload id u uploads) ≡ some u
find_where-set_upload id u [] e = ground arith
find_where-set_upload id u (v ∷ uploads) e = ground (arith, find_where-set_upload id u uploads e)

find_where-IsCounted :
    (id : Chars) (u : Upload) (uploads : List Upload)
    → All IsCounted uploads
    → find_where (has_upload_id id) uploads ≡ some u
    → IsCounted u
find_where-IsCounted id u [] h e = absurd (ground arith)
find_where-IsCounted id u (v ∷ uploads) h e = elim (Bool-cases (has_upload_id id v)) [
  | inl k ↦ subst IsCounted (first k) h.0
  | inr k ↦ find_where-IsCounted id u uploads h.1 (ground arith)
]
  where
    first : (has_upload_id id v) ≡ true → v ≡ u
    first k = ground arith

store_part-IsCounted :
    (u : Upload) (meta : UploadMeta) (part size now : ℕ)
    → IsCounted u
    → u.meta ≡ some meta
    → IsCounted (store_part part size (next_total u meta part size) now meta u)
store_part-IsCounted u meta part size now c e m r k l =
    ground (arith, next_total-sum u meta part size c e)

module _ (part_max max_bytes now : ℕ) (id : Chars) (part size : ℕ) (uploads : List Upload) where
  -- What a part that is accepted was checked for, and what it leaves.
  pub record Accepted (u : Upload) (meta : UploadMeta) : Type 0 where
    pub found : find_where (has_upload_id id) uploads ≡ some u
    pub described : u.meta ≡ some meta
    pub in_range : (1 ≤ part) × (part ≤ 100000)
    pub fits : size ≤ part_max
    pub total_fits : next_total u meta part size ≤ max_bytes
    pub stored :
        (write_upload_part part_max max_bytes now id part size uploads).1
        ≡ set_upload id (store_part part size (next_total u meta part size) now meta u) uploads

  accepted :
      (n : ℕ)
      → (write_upload_part part_max max_bytes now id part size uploads).0 ≡ ok n
      → (u : Upload) × (meta : UploadMeta) × Accepted u meta
  unfolding write_upload_part
  accepted n e = elim (Option-cases (find_where (has_upload_id id) uploads)) [
    | inl f ↦ absurd (ground arith)
    | inr (u, f) ↦ elim (Option-cases u.meta) [
      | inl g ↦ absurd (ground arith)
      | inr (m, g) ↦ (
        u,
        m,
        record {
          found = f;
          described = g;
          in_range = (ground arith, ground arith);
          fits = ground arith;
          total_fits = ground arith;
          stored = ground arith;
        },
      )
    ]
  ]

  -- A part that writeUploadPart accepts leaves every session counted, its own with no more bytes on
  -- disk than the cap, also where the part replaces one of the same number.
  pub write_upload_part-within :
      (n : ℕ)
      → All IsCounted uploads
      → (write_upload_part part_max max_bytes now id part size uploads).0 ≡ ok n
      → All IsCounted ((write_upload_part part_max max_bytes now id part size uploads).1)
        × ((u : Upload) × (find_where
                (has_upload_id id)
                ((write_upload_part part_max max_bytes now id part size uploads).1)
              ≡ some u)
            × (sum_stored_parts u.parts ≤ max_bytes))
  write_upload_part-within n h e =
      let (u, meta, a) = accepted n e in
      let c = find_where-IsCounted id u uploads h a.found in
      let v = store_part part size (next_total u meta part size) now meta u in
      (
        rw (a.stored) (
            All-set_upload id v uploads (store_part-IsCounted u meta part size now c a.described)
              h),
        (
          v,
          rw (a.stored) (
              find_where-set_upload id v uploads
                (find_where-holds (has_upload_id id) uploads u a.found)),
          ground (arith, next_total-sum u meta part size c a.described, a.total_fits),
        ),
      )

abbrev started : Chars → UploadMeta → ℕ → Upload
started id meta now = record {
  upload_id = id;
  meta = some (record meta { created_at = now; received_bytes = some 0 });
  parts = [];
  modified_at = now;
}

created :
    (id : Chars) (meta : UploadMeta) (now : ℕ) (uploads : List Upload)
    → find_where (has_upload_id id) uploads ≡ none
    → create_upload id meta now uploads ≡ set_upload id (started id meta now) uploads
unfolding create_upload
created id meta now uploads e = ground arith

-- A session starts, and ends, with every session counted.
pub lifecycle-IsCounted :
    (id : Chars) (meta : UploadMeta) (now ttl_hours : ℕ) (uploads : List Upload)
    → find_where (has_upload_id id) uploads ≡ none
    → All IsCounted uploads
    → All IsCounted (create_upload id meta now uploads)
      × All IsCounted (remove_upload id uploads)
      × All IsCounted (sweep_stale_uploads ttl_hours now uploads)
unfolding create_upload remove_upload sweep_stale_uploads
lifecycle-IsCounted id meta now ttl_hours uploads e h = (
  subst (All IsCounted) (sym (created id meta now uploads e))
      (All-set_upload id (started id meta now) uploads (λ m r k l. ground arith) h),
  All-delete IsCounted (has_upload_id id) uploads h,
  All-delete IsCounted (λ u. ltb (u.modified_at + ttl_hours * 3600000) now) uploads h,
)
