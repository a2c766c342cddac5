-- ===== src/Reader/Delivery.antt =====
-- What a reader of lib/bgpstream_reader.c delivers of what its format gives.
use libbgpstream.Prelude.{
  ℕ, zero, suc, ◌<◌, ◌≡◌, refl, Bool, true, false, not, ◌&&◌, ◌||◌, Option, none, some, List, [],
  ◌∷◌, if◌then◌else◌, arith, length, Bool-cases, inl, inr,
}
use libbgpstream.Reader.{
  FormatStatus, format_ok, corrupted_msg, unsupported_msg, end_of_dump, DumpRecord, ReaderStatus,
  eos, reader_ok, Reader, is_format_ok, is_bad_msg, is_end_of_dump, is_dump_end, at_dump_end,
  prefetch_record, finish_prefetch, get_next_record, opened,
}

-- Calls of get_next_record up to the first that gives no record: the records, and what it said;
-- none if that takes more calls than the fuel.
abbrev pub prepend :
    DumpRecord → Option (List DumpRecord × ReaderStatus) → Option (List DumpRecord × ReaderStatus)
prepend rec none = none
prepend rec (some (l, st)) = some (rec ∷ l, st)

abbrev pub read_step :
    (Reader → Option (List DumpRecord × ReaderStatus))
    → Reader × ReaderStatus × Option DumpRecord
    → Option (List DumpRecord × ReaderStatus)
read_step k (r, st, none) = some ([], st)
read_step k (r, st, some rec) = prepend rec (k r)

unfoldable pub read_all : ℕ → Reader → Option (List DumpRecord × ReaderStatus)
read_all zero r = none
read_all (suc f) r = read_step (read_all f) (get_next_record r)

-- A record is marked as the last if the format ends the dump after it with a record at its end.
abbrev pub mark : DumpRecord → DumpRecord → List (FormatStatus × DumpRecord) → DumpRecord
mark at_end rec [] = if is_dump_end at_end.dump_pos then at_dump_end rec else rec
mark at_end rec ((st, next) ∷ rest) =
    if is_end_of_dump st && is_dump_end next.dump_pos then at_dump_end rec else rec

-- The records that a dump is to deliver: all up to its end, with that of a status that ends the
-- dump in another way.
unfoldable pub exports : DumpRecord → List (FormatStatus × DumpRecord) → List DumpRecord
exports at_end [] = []
exports at_end ((st, rec) ∷ rest) =
    if is_end_of_dump st
    then []
    else if is_format_ok st || is_bad_msg st
    then mark at_end rec rest ∷ exports at_end rest
    else rec ∷ []

and_false : (b : Bool) → (b && false) ≡ false
and_false true = refl
and_false false = refl

is_end : (st : FormatStatus) → is_end_of_dump st ≡ true → st ≡ end_of_dump
is_end end_of_dump e = refl
is_end _ e = cc

not_ok : (st : FormatStatus) → (is_format_ok st || is_bad_msg st) ≡ false → is_format_ok st ≡ false
not_ok format_ok e = cc
not_ok _ e = refl

-- A reader of a dump whose prefetch buffer is `p`, with what that buffer and the other one hold.
state :
    Bool
    → FormatStatus
    → DumpRecord
    → Bool
    → DumpRecord
    → Bool
    → ℕ
    → List (FormatStatus × DumpRecord)
    → DumpRecord
    → Reader
state false st own own_filled other other_filled time fmt at_end = record {
  is_forever = false;
  buf_0 = own;
  buf_1 = other;
  filled_0 = own_filled;
  filled_1 = other_filled;
  prefetch_idx = false;
  status = st;
  next_time = time;
  format = fmt;
  at_end = at_end;
}
state true st own own_filled other other_filled time fmt at_end = record {
  is_forever = false;
  buf_0 = other;
  buf_1 = own;
  filled_0 = other_filled;
  filled_1 = own_filled;
  prefetch_idx = true;
  status = st;
  next_time = time;
  format = fmt;
  at_end = at_end;
}

module _ (at_end : DumpRecord) where
  -- The dump has ended and no record is left.
  done :
      (p : Bool) (st : FormatStatus) (own other : DumpRecord) (g : Bool) (time : ℕ)
      (fmt : List (FormatStatus × DumpRecord))
      → is_format_ok st ≡ false
      → get_next_record (state p st own false other g time fmt at_end)
        ≡ (state (not p) st other false own false time fmt at_end, eos, none)
  unfolding get_next_record state
  done false st own other g time fmt e = rw e
  done true st own other g time fmt e = rw e

  read_all-done :
      (f : ℕ) (p : Bool) (st : FormatStatus) (own other : DumpRecord) (g : Bool) (time : ℕ)
      (fmt : List (FormatStatus × DumpRecord))
      → is_format_ok st ≡ false
      → read_all (suc f) (state p st own false other g time fmt at_end) ≡ some ([], eos)
  unfolding read_all
  read_all-done f p st own other g time fmt e = rw (done p st own other g time fmt e)

  last :
      (p : Bool) (st : FormatStatus) (own other : DumpRecord) (g : Bool) (time : ℕ)
      (fmt : List (FormatStatus × DumpRecord))
      → is_format_ok st ≡ false
      → get_next_record (state p st own true other g time fmt at_end)
        ≡ (state (not p) st other false own true time fmt at_end, reader_ok, some own)
  unfolding get_next_record state
  last false st own other g time fmt e = rw e
  last true st own other g time fmt e = rw e

  going :
      (p : Bool) (st : FormatStatus) (own other next : DumpRecord) (g : Bool) (time : ℕ)
      (fmt : List (FormatStatus × DumpRecord))
      → (is_format_ok st || is_bad_msg st) ≡ true
      → (time' : ℕ) × (get_next_record
            (state p format_ok own true other g time ((st, next) ∷ fmt) at_end)
          ≡ (state (not p) format_ok next true own true time' fmt at_end, reader_ok, some own))
  unfolding get_next_record prefetch_record finish_prefetch state
  going false format_ok own other next g time fmt e = (next.time_sec, refl)
  going true format_ok own other next g time fmt e = (next.time_sec, refl)
  going false corrupted_msg own other next g time fmt e = (time, refl)
  going true corrupted_msg own other next g time fmt e = (time, refl)
  going false unsupported_msg own other next g time fmt e = (time, refl)
  going true unsupported_msg own other next g time fmt e = (time, refl)
  going p _ own other next g time fmt e = cc

  -- The dump ends in another way: its record is the last.
  stopping :
      (p : Bool) (st : FormatStatus) (own other next : DumpRecord) (g : Bool) (time : ℕ)
      (fmt : List (FormatStatus × DumpRecord))
      → is_end_of_dump st ≡ false
      → (is_format_ok st || is_bad_msg st) ≡ false
      → get_next_record (state p format_ok own true other g time ((st, next) ∷ fmt) at_end)
        ≡ (state (not p) st next true own true next.time_sec fmt at_end, reader_ok, some own)
  unfolding get_next_record prefetch_record finish_prefetch state
  stopping false end_of_dump own other next g time fmt e f = cc
  stopping false format_ok own other next g time fmt e f = cc
  stopping false corrupted_msg own other next g time fmt e f = cc
  stopping false unsupported_msg own other next g time fmt e f = cc
  stopping false _ own other next g time fmt e f = refl
  stopping true end_of_dump own other next g time fmt e f = cc
  stopping true format_ok own other next g time fmt e f = cc
  stopping true corrupted_msg own other next g time fmt e f = cc
  stopping true unsupported_msg own other next g time fmt e f = cc
  stopping true _ own other next g time fmt e f = refl

  read_all-last :
      (f : ℕ) (p : Bool) (st : FormatStatus) (own other : DumpRecord) (g : Bool) (time : ℕ)
      (fmt : List (FormatStatus × DumpRecord))
      → is_format_ok st ≡ false
      → read_all (suc (suc f)) (state p st own true other g time fmt at_end) ≡ some (own ∷ [], eos)
  unfolding read_all
  read_all-last f p st own other g time fmt e =
      rw (last p st own other g time fmt e, read_all-done f (not p) st other own true time fmt e)

  -- The format says that the dump has ended, with the record `next`.
  abbrev marked : DumpRecord → DumpRecord → DumpRecord
  marked next rec = if is_dump_end next.dump_pos then at_dump_end rec else rec

  ending :
      (p : Bool) (own other next : DumpRecord) (g : Bool) (time : ℕ)
      (fmt : List (FormatStatus × DumpRecord))
      → get_next_record (state p format_ok own true other g time ((end_of_dump, next) ∷ fmt) at_end)
        ≡ (
          state (not p) end_of_dump next false (marked next own) true next.time_sec fmt at_end,
          reader_ok,
          some (marked next own),
        )
  unfolding get_next_record prefetch_record finish_prefetch state
  ending false own other next g time fmt = elim (Bool-cases (is_dump_end next.dump_pos)) [
    | inl at ↦ rw at
    | inr before ↦ rw before
  ]
  ending true own other next g time fmt = elim (Bool-cases (is_dump_end next.dump_pos)) [
    | inl at ↦ rw at
    | inr before ↦ rw before
  ]

  ending_nil :
      (p : Bool) (own other : DumpRecord) (g : Bool) (time : ℕ)
      → get_next_record (state p format_ok own true other g time [] at_end) ≡ (
        state (not p) end_of_dump at_end false (marked at_end own) true at_end.time_sec [] at_end,
        reader_ok,
        some (marked at_end own),
      )
  unfolding get_next_record prefetch_record finish_prefetch state
  ending_nil false own other g time = elim (Bool-cases (is_dump_end at_end.dump_pos)) [
    | inl at ↦ rw at
    | inr before ↦ rw before
  ]
  ending_nil true own other g time = elim (Bool-cases (is_dump_end at_end.dump_pos)) [
    | inl at ↦ rw at
    | inr before ↦ rw before
  ]

  -- With a record prefetched, it comes first, and then what the format gives.
  read_all-going :
      (fmt : List (FormatStatus × DumpRecord)) (f : ℕ) (p : Bool) (own other : DumpRecord)
      (g : Bool) (time : ℕ)
      → length fmt < f
      → read_all (suc f) (state p format_ok own true other g time fmt at_end)
        ≡ some (mark at_end own fmt ∷ exports at_end fmt, eos)
  unfolding read_all exports
  read_all-going fmt zero p own other g time h = absurd (omega arith)
  read_all-going [] (suc f) p own other g time h = rw (
    ending_nil p own other g time,
    read_all-done f (not p) end_of_dump at_end (marked at_end own) true at_end.time_sec [] refl,
  )
  read_all-going (given ∷ fmt) (suc zero) p own other g time h = absurd (omega arith)
  read_all-going ((st, next) ∷ fmt) (suc (suc f)) p own other g time h =
      elim (Bool-cases (is_end_of_dump st)) [
        | inl ends ↦ rw (
          is_end st ends,
          ending p own other next g time fmt,
          read_all-done (suc f) (not p) end_of_dump next (marked next own) true next.time_sec fmt
              refl,
        )
        | inr more ↦ elim (Bool-cases (is_format_ok st || is_bad_msg st)) [
          | inl on ↦
              let (time', e) = going p st own other next g time fmt on in
              rw (e, more, on, read_all-going fmt (suc f) (not p) next own true time' (omega arith))
          | inr off ↦ rw (
            stopping p st own other next g time fmt more off,
            more,
            off,
            read_all-last f (not p) st next own true next.time_sec fmt (not_ok st off),
          )
        ]
      ]

-- A dump that was opened is delivered whole, in order, each record once: the calls give the records
-- that the format gives up to the end of the dump, the last one marked as such where the format's
-- last word is at its end, and then say that the stream has ended. One call more than the format has
-- results, and one for the end, are enough.
pub read_all-opened :
    (format : List (FormatStatus × DumpRecord)) (at_end blank : DumpRecord)
    → read_all (suc (suc (length format))) (opened false format at_end blank)
      ≡ some (exports at_end format, eos)
unfolding opened prefetch_record finish_prefetch exports state
read_all-opened [] at_end blank =
    rw (and_false (is_dump_end at_end.dump_pos))
      (read_all-done at_end 1 false end_of_dump at_end blank false at_end.time_sec [] refl)
read_all-opened ((end_of_dump, first) ∷ fmt) at_end blank =
    rw (and_false (is_dump_end first.dump_pos)) (
      read_all-done at_end (suc (suc (length fmt))) false end_of_dump first blank false
        first.time_sec fmt refl)
read_all-opened ((format_ok, first) ∷ fmt) at_end blank =
    read_all-going at_end fmt (suc (suc (length fmt))) false first blank false first.time_sec
      (omega arith)
read_all-opened ((corrupted_msg, first) ∷ fmt) at_end blank =
    read_all-going at_end fmt (suc (suc (length fmt))) false first blank false 0 (omega arith)
read_all-opened ((unsupported_msg, first) ∷ fmt) at_end blank =
    read_all-going at_end fmt (suc (suc (length fmt))) false first blank false 0 (omega arith)
read_all-opened ((st, first) ∷ fmt) at_end blank =
    read_all-last at_end (suc (length fmt)) false st first blank false first.time_sec fmt refl
