-- ===== src/Tests/Readers.antt =====
-- Readers and the data interface manager.
use libbgpstream.Prelude.{ℕ, ◌≤◌, ◌≡◌, refl, true, false, some, List, [], ◌∷◌, take, All}
use libbgpstream.ResourceMgr
use libbgpstream.Reader.{
  FormatStatus, format_ok, corrupted_msg, end_of_dump, DumpRecord, dump_middle, dump_end, eos,
  opened, open_format, max_retries,
}
use libbgpstream.Reader.Delivery.{read_all, exports, read_all-opened}
use libbgpstream.Reader.Opening.{any_true, open_format_lem}
use libbgpstream.DiMgr.{DiMgr, Round, at_eos, rounds, create}
use libbgpstream.DiMgr.Waiting.{IsPaced, SleepsWithin, create-IsPaced, rounds-IsPaced}

abbrev dump_record : ℕ → DumpRecord
dump_record time = record { time_sec = time; dump_pos = dump_middle; content = time }

abbrev last_word : DumpRecord
last_word = record { time_sec = 30; dump_pos = dump_end; content = 0 }

abbrev dump : List (FormatStatus × DumpRecord)
dump =
    (format_ok, dump_record 10)
    ∷ (corrupted_msg, dump_record 20)
    ∷ (end_of_dump, last_word)
    ∷ (format_ok, dump_record 40)
    ∷ []

read_all-opened_example :
    read_all 6 (opened false dump last_word (dump_record 0)) ≡ some (exports last_word dump, eos)
read_all-opened_example = read_all-opened dump last_word (dump_record 0)

two_records :
    exports last_word dump
    ≡ dump_record 10 ∷ record { time_sec = 20; dump_pos = dump_end; content = 20 } ∷ []
unfolding exports
two_records = refl

five_attempts :
    ((open_format (false ∷ false ∷ true ∷ [])).0
      ≡ any_true (take max_retries (false ∷ false ∷ true ∷ [])))
    × ((open_format (false ∷ false ∷ true ∷ [])).1 ≤ 150)
five_attempts = open_format_lem (false ∷ false ∷ true ∷ [])

abbrev idle : Round
idle = record {
  queue = ResourceMgr.create;
  now = 0;
  updated = some ResourceMgr.create;
  now_after = 1;
  delivery = at_eos;
  interrupted = false;
}

abbrev waiting : DiMgr
waiting = record create { blocking = true }

waiting-IsPaced : IsPaced waiting
waiting-IsPaced = record {
  poll_low = create-IsPaced.poll_low;
  poll_high = create-IsPaced.poll_high;
  backoff_low = create-IsPaced.backoff_low;
  backoff_high = create-IsPaced.backoff_high;
}

rounds-IsPaced_example :
    IsPaced (rounds waiting (idle ∷ idle ∷ [])).0
    × All SleepsWithin (rounds waiting (idle ∷ idle ∷ [])).1
rounds-IsPaced_example = rounds-IsPaced waiting (idle ∷ idle ∷ []) waiting-IsPaced
