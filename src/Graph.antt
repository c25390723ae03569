-- ===== src/Graph.antt =====
-- internal/teams/graph/chunked_upload.go: uploading a file to a Microsoft Graph upload session in
-- chunks. Parameters: `put` is the executor's Do on one PUT request, with the response after
-- `classifyChunkUploadResponse` let it pass; `decode_ranges` and `decode_id` are encoding/json,
-- `parse_item` is the drive item's parser and `get_item` is GetDriveItem.
pub mod Upload
use mautrix_teams.Base.{
  ℕ, zero, suc, ◌+◌, ◌-◌, ◌*◌, ◌%◌, Bool, true, false, not, ◌&&◌, ◌||◌, Option, none, some, List,
  [], ◌∷◌, ltb, leb, ◌==◌, if◌then◌else◌, length,
}
use mautrix_teams.Base.Int.{ℤ, pos, negsuc, signed, word}
use mautrix_teams.Base.Text.{Text, codes, trim_space, is_empty, cut}
use mautrix_teams.Base.Decimal.{parse_int}
use mautrix_teams.Errors.{Err}

abbrev pub chunk_size_align : ℕ
chunk_size_align = 320 * 1024

abbrev pub default_chunk_size : ℕ
default_chunk_size = 5 * 1024 * 1024

-- The fields of `GraphClient` that the upload reads; `has_http` is false for a nil client.
pub record GraphClient : Type 0 where
  pub has_http : Bool
  pub chunk_size : ℤ

-- The request for a chunk: its Content-Range and its body.
pub record Put : Type 0 where
  pub first : ℕ
  pub last : ℕ
  pub total : ℕ
  pub body : List ℕ

pub data Answer : Type 0 where
  failed : Err → Answer
  missing : Answer
  replied : ℕ → Text → Answer

pub data UploadError : Type 0 where
  missing_client : UploadError
  empty_upload_url : UploadError
  empty_upload_content : UploadError
  invalid_chunk_size : UploadError
  request_failed : Err → UploadError
  missing_response : UploadError
  bad_ranges : UploadError
  missing_expected_ranges : UploadError
  invalid_expected_range : UploadError
  bad_item : UploadError
  chunk_upload_error : ℕ → Text → UploadError
  not_completed : UploadError

-- How a run ends: with an item, an error or a slice out of range, or not within the fuel.
pub data Ending (I : Type 0) : Type 0 where
  uploaded : I → Ending I
  stopped : UploadError → Ending I
  panicked : Ending I
  unfinished : Ending I

-- `content[start : start + n]`.
unfoldable pub take : ℕ → List ℕ → List ℕ
take zero s = []
take (suc n) [] = []
take (suc n) (x ∷ s) = x ∷ take n s

unfoldable pub drop : ℕ → List ℕ → List ℕ
drop zero s = s
drop (suc n) [] = []
drop (suc n) (x ∷ s) = drop n s

unfoldable pub slice : List ℕ → ℕ → ℕ → List ℕ
unfolding take drop
slice content start stop = take (stop - start) (drop start content)

-- `parseNextExpectedStart`: none is ErrInvalidExpectedRange.
unfoldable pub start_of : Option ℤ → Option ℕ
start_of none = none
start_of (some (pos n)) = some n
start_of (some (negsuc n)) = none

unfoldable pub before_dash : Option (Text × Text) → Option ℕ
unfolding start_of
before_dash none = none
before_dash (some (before, after)) = if is_empty before then none else start_of (parse_int before)

unfoldable pub parse_next_expected_start : Text → Option ℕ
unfolding before_dash
parse_next_expected_start v = before_dash (cut (trim_space v) (codes "-"))

-- The chunk size that is used: none is ErrInvalidChunkSize.
unfoldable pub positive_chunk_size : ℤ → ℕ
positive_chunk_size (pos zero) = default_chunk_size
positive_chunk_size (pos (suc n)) = suc n
positive_chunk_size (negsuc n) = default_chunk_size

unfoldable pub effective_chunk_size : ℤ → Option ℕ
unfolding positive_chunk_size
effective_chunk_size z =
    if positive_chunk_size z % chunk_size_align == 0 then some (positive_chunk_size z) else none

-- The last byte of the chunk at `start`, an int64 whose sum may wrap.
unfoldable pub clamp_end : ℤ → ℕ → ℤ
clamp_end (pos e) total = if leb total e then pos (total - 1) else pos e
clamp_end (negsuc e) total = negsuc e

unfoldable pub chunk_end : ℕ → ℕ → ℕ → ℤ
unfolding clamp_end
chunk_end start chunk_size total = clamp_end (signed ((start + chunk_size - 1) % word)) total

-- The request for the bytes from `start` to `e`.
unfoldable pub chunk_put : List ℕ → ℕ → ℕ → Put
unfolding slice
chunk_put content start e = record {
  first = start;
  last = e;
  total = length content;
  body = slice content start (suc e);
}

module _ {W I : Type 0} (put : W → Put → Answer × W) (decode_ranges : Text → Option (List Text))
    (parse_item : Text → Option I) (decode_id : Text → Option Text)
    (get_item : W → Text → Option I) where
  -- What follows a chunk: the next start, or the end of the upload.
  pub data After : Type 0 where
    goes_on : ℕ → After
    ends : Ending I → After

  unfoldable pub after_start : Option ℕ → After
  after_start none = ends (stopped invalid_expected_range)
  after_start (some n) = goes_on n

  unfoldable pub after_ranges : Option (List Text) → After
  unfolding after_start parse_next_expected_start
  after_ranges none = ends (stopped bad_ranges)
  after_ranges (some []) = ends (stopped missing_expected_ranges)
  after_ranges (some (r ∷ rs)) =
      if is_empty (trim_space r)
      then ends (stopped missing_expected_ranges)
      else after_start (parse_next_expected_start r)

  -- The fetch of the item by its ID, where the final response lacks a part of it.
  unfoldable pub fetched : Option I → Ending I
  fetched none = stopped bad_item
  fetched (some i) = uploaded i

  unfoldable pub fetch_by_id : W → Option Text → Ending I
  unfolding fetched
  fetch_by_id w none = stopped bad_item
  fetch_by_id w (some id) =
      if is_empty (trim_space id) then stopped bad_item else fetched (get_item w id)

  unfoldable pub final_item : W → Text → Option I → Ending I
  unfolding fetch_by_id
  final_item w raw none = fetch_by_id w (decode_id raw)
  final_item w raw (some i) = uploaded i

  unfoldable pub after_answer : W → Answer → After
  unfolding after_ranges final_item
  after_answer w (failed e) = ends (stopped (request_failed e))
  after_answer w missing = ends (stopped missing_response)
  after_answer w (replied status body) =
      if status == 202
      then after_ranges (decode_ranges body)
      else if leb 200 status && ltb status 300
      then ends (final_item w body (parse_item body))
      else ends (stopped (chunk_upload_error status body))

  -- The loop of `UploadFileInChunks`, with the requests that it sends.
  unfoldable pub then_from : (W → ℕ → Ending I × List Put) → W → After → Ending I × List Put
  then_from again w (ends e) = (e, [])
  then_from again w (goes_on n) = again w n

  unfoldable pub sent_then : Put → Ending I × List Put → Ending I × List Put
  sent_then p r = (r.0, p ∷ r.1)

  unfoldable pub upload_chunk :
      (W → ℕ → Ending I × List Put) → W → List ℕ → ℕ → ℤ → Ending I × List Put
  unfolding then_from sent_then after_answer chunk_put
  upload_chunk again w content start (negsuc e) = (panicked, [])
  upload_chunk again w content start (pos e) =
      let r : Answer × W = put w (chunk_put content start e) in
      if ltb (suc e) start
      then (panicked, [])
      else sent_then (chunk_put content start e) (then_from again r.1 (after_answer r.1 r.0))

  -- The loop, each round with the requests that it sends.
  unfoldable pub upload_from : ℕ → ℕ → List ℕ → W → ℕ → Ending I × List Put
  unfolding upload_chunk chunk_end
  upload_from zero chunk_size content w start = (unfinished, [])
  upload_from (suc fuel) chunk_size content w start =
      let again = upload_from fuel chunk_size content in
      if ltb start (length content)
      then upload_chunk again w content start (chunk_end start chunk_size (length content))
      else (stopped not_completed, [])

  unfoldable pub upload_with : ℕ → List ℕ → W → Option ℕ → Ending I × List Put
  unfolding upload_from
  upload_with fuel content w none = (stopped invalid_chunk_size, [])
  upload_with fuel content w (some size) = upload_from fuel size content w 0

  -- `UploadFileInChunks`.
  unfoldable pub upload_file_in_chunks : ℕ → GraphClient → Text → List ℕ → W → Ending I × List Put
  unfolding upload_with effective_chunk_size
  upload_file_in_chunks fuel c upload_url content w =
      if not c.has_http
      then (stopped missing_client, [])
      else if is_empty (trim_space upload_url)
      then (stopped empty_upload_url, [])
      else if length content == 0
      then (stopped empty_upload_content, [])
      else upload_with fuel content w (effective_chunk_size c.chunk_size)
