-- ===== src/Reader.antt =====
-- The reader of one resource: lib/bgpstream_reader.c. The format (lib/bgpstream_format.c and what it
-- calls) is the list of what it has still to give: a status and the record that it has filled. When
-- there is no more it says that the dump has ended, with the record `at_end`. The thread that opens
-- the resource and the calls that wait for it are one sequence of steps.
pub mod Delivery
pub mod Opening
use libbgpstream.Prelude.{
  ℕ, zero, suc, ◌+◌, ◌*◌, Bool, true, false, not, ◌&&◌, ◌||◌, Option, none, some, List, [], ◌∷◌,
  if◌then◌else◌, ltb,
}

-- bgpstream_format_status_t
pub data FormatStatus : Type 0 where
  format_ok corrupted_msg unsupported_msg filtered_dump empty_dump cant_open_dump : FormatStatus
  corrupted_dump end_of_dump outside_time_interval read_error unknown_error : FormatStatus

-- bgpstream_dump_position_t
pub data DumpPos : Type 0 where
  dump_start dump_middle dump_end : DumpPos

-- `content` stands for the fields that the reader does not look at.
pub record DumpRecord : Type 0 where
  pub time_sec : ℕ
  pub dump_pos : DumpPos
  pub content : ℕ

-- bgpstream_reader_status_t
pub data ReaderStatus : Type 0 where
  reader_error eos again reader_ok : ReaderStatus

-- `rec_buf` and `rec_buf_filled` by index, 0 for false.
pub record Reader : Type 0 where
  pub is_forever : Bool
  pub buf_0 : DumpRecord
  pub buf_1 : DumpRecord
  pub filled_0 : Bool
  pub filled_1 : Bool
  pub prefetch_idx : Bool
  pub status : FormatStatus
  pub next_time : ℕ
  pub format : List (FormatStatus × DumpRecord)
  pub at_end : DumpRecord

abbrev pub rec_buf : Reader → Bool → DumpRecord
rec_buf r false = r.buf_0
rec_buf r true = r.buf_1

abbrev pub filled : Reader → Bool → Bool
filled r false = r.filled_0
filled r true = r.filled_1

abbrev pub set_buf : Reader → Bool → DumpRecord → Reader
set_buf r false rec = record r { buf_0 = rec }
set_buf r true rec = record r { buf_1 = rec }

abbrev pub set_filled : Reader → Bool → Bool → Reader
set_filled r false b = record r { filled_0 = b }
set_filled r true b = record r { filled_1 = b }

-- bgpstream_format_populate_record
abbrev pub populate_record : Reader → FormatStatus × DumpRecord
populate_record r = elim r.format [ [] ↦ (end_of_dump, r.at_end) | given ∷ rest ↦ given ]

abbrev pub rest_of {ℓ} : {A : Type ℓ} → List A → List A
rest_of [] = []
rest_of (x ∷ l) = l

-- The statuses that a stream takes for "nothing yet".
abbrev pub is_pause : FormatStatus → Bool
is_pause end_of_dump = true
is_pause filtered_dump = true
is_pause empty_dump = true
is_pause corrupted_dump = true
is_pause _ = false

abbrev pub is_bad_msg : FormatStatus → Bool
is_bad_msg corrupted_msg = true
is_bad_msg unsupported_msg = true
is_bad_msg _ = false

abbrev pub is_end_of_dump : FormatStatus → Bool
is_end_of_dump end_of_dump = true
is_end_of_dump _ = false

abbrev pub is_format_ok : FormatStatus → Bool
is_format_ok format_ok = true
is_format_ok _ = false

abbrev pub is_dump_end : DumpPos → Bool
is_dump_end dump_end = true
is_dump_end _ = false

abbrev pub at_dump_end : DumpRecord → DumpRecord
at_dump_end rec = record rec { dump_pos = dump_end }

-- The end of prefetch_record: the time, the position of the exported record, and the filling.
unfoldable pub finish_prefetch : Reader → FormatStatus → DumpRecord → Reader
finish_prefetch r st rec =
    let p = r.prefetch_idx in
    let timed = record r { next_time = rec.time_sec } in
    let marked =
      if is_end_of_dump st && (is_dump_end rec.dump_pos && filled r (not p))
      then set_buf timed (not p) (at_dump_end (rec_buf r (not p)))
      else timed in
    if is_end_of_dump st then marked else set_filled marked p true

unfoldable pub prefetch_record : Reader → Reader
unfolding finish_prefetch
prefetch_record r =
    let (st, rec) = populate_record r in
    let p = r.prefetch_idx in
    let read = record (set_buf r p rec) { format = rest_of r.format; status = st } in
    if r.is_forever && is_pause st
    then record read { status = format_ok }
    else if is_bad_msg st
    then record (set_filled read p true) { status = format_ok }
    else finish_prefetch read st rec

abbrev pub with_prefetch : Reader → Reader
with_prefetch r = if is_format_ok r.status then prefetch_record r else r

-- bgpstream_reader_get_next_record where the resource could be opened: the status and the record.
unfoldable pub get_next_record : Reader → Reader × ReaderStatus × Option DumpRecord
unfolding prefetch_record
get_next_record r =
    let flipped = record (set_filled r (not r.prefetch_idx) false) {
      prefetch_idx = not r.prefetch_idx;
    } in
    let read = with_prefetch flipped in
    if not (filled read (not read.prefetch_idx))
    then (read, if read.is_forever && is_format_ok read.status then again else eos, none)
    else (read, reader_ok, some (rec_buf read (not read.prefetch_idx)))

-- The reader after its resource was opened, with the first record prefetched.
unfoldable pub opened : Bool → List (FormatStatus × DumpRecord) → DumpRecord → DumpRecord → Reader
unfolding prefetch_record
opened is_forever format at_end blank = prefetch_record (record {
  is_forever = is_forever;
  buf_0 = blank;
  buf_1 = blank;
  filled_0 = false;
  filled_1 = false;
  prefetch_idx = false;
  status = format_ok;
  next_time = 0;
  format = format;
  at_end = at_end;
})

-- DUMP_OPEN_MAX_RETRIES and DUMP_OPEN_MIN_RETRY_WAIT.
abbrev pub max_retries : ℕ
max_retries = 5

abbrev pub min_retry_wait : ℕ
min_retry_wait = 10

-- The loop of threaded_opener: `attempts` says which calls of bgpstream_format_create succeed, in
-- order; one that is not there fails. `left` is how many retries are left. The result is whether
-- the format was made, and the seconds slept.
unfoldable pub open_loop : ℕ → ℕ → List Bool → Bool × ℕ
open_loop zero delay attempts = (false, 0)
open_loop (suc left) delay [] =
    let (made, slept) = open_loop left (delay * 2) [] in
    (made, if ltb 0 left then delay + slept else slept)
open_loop (suc left) delay (true ∷ attempts) = (true, 0)
open_loop (suc left) delay (false ∷ attempts) =
    let (made, slept) = open_loop left (delay * 2) attempts in
    (made, if ltb 0 left then delay + slept else slept)

unfoldable pub open_format : List Bool → Bool × ℕ
unfolding open_loop
open_format attempts = open_loop max_retries min_retry_wait attempts
