-- ===== src/Storage/Memory/Examples.antt =====
-- src/storage/memory.rs: the theorems of the page memories at small lists.
use riddle.Prelude.{
  ◌≡◌, ◌≢◌, refl, true, false, some, none, List, [], ◌∷◌, ok, length, All, last?, take, arith, pos,
  negsuc,
}
use riddle.Text.{Text, lit, byte_len, len_utf8}
use riddle.Text.Splitting.{Lacks}
use riddle.Storage.Persistence.{Dir, text, missing, sync_directory}
use riddle.Storage.Index.{load_unlocked, render}
use riddle.Storage.Index.RoundTrip.{load-render}
use riddle.Storage.Memory.{Entry, MemoryStore, memory_format, ids}
use riddle.Storage.Memory.Columns.{IsPage, memory_codec}
use riddle.Storage.Memory.Strokes.{Stroke, parse_strokes, print_strokes}
use riddle.Storage.Memory.Strokes.RoundTrip.{IsStroke, parse_strokes-print_strokes}
use riddle.Storage.Memory.Appending.{MemoryEnv, try_append, delete_number}
use riddle.Storage.Memory.Appending.Newest.{IsMemoryList}
use riddle.Storage.Memory.Appending.Pages.{Paged}
use riddle.Storage.Memory.Appending.Settling.{Appended}
use riddle.Storage.Memory.Appending.Reporting.{try_append-Appended, try_append-Paged}
use riddle.Storage.Memory.Appending.Deleting.{Deleted, delete_number-Deleted}
use riddle.Storage.Memory.Dialogue.{recent_dialogue, begin_dialogue_session}
use riddle.Storage.Memory.Dialogue.Recent.{Newest, dialogue_pages, recent_dialogue-Newest}
use riddle.Storage.Memory.Dialogue.Sessions.{Begun, begin_dialogue_session-Begun}
use riddle.Storage.Memory.Dates.{civil}
use riddle.Storage.Memory.Dates.Civil.{Day, next_day}
use riddle.Storage.Memory.Dates.Spoken.{at_hour, civil-next_day}
use riddle.Storage.Memory.Listing.{catalog}
use riddle.Storage.Memory.Listing.Lines.{catalog-lines}

-- The directory's sync fails after a new index is in place, and stroke files cannot be removed.
abbrev refusing : MemoryEnv
refusing = record {
  system = record {
    lock_fails = false;
    read_fails = false;
    write_fault = some (record { stage = sync_directory; cleanup_fails = false });
    reread_fails = false;
  };
  stroke_fault = none;
  kept = λ id. true;
}

abbrev tea : Entry
tea = record { id = 7; transcript = lit "tea?"; reply = lit "green\ntea" }

abbrev garden : Entry
garden = record { id = 9; transcript = lit "garden"; reply = lit "roses" }

abbrev two_pages : List Entry
two_pages = tea ∷ garden ∷ []

abbrev one_stroke : List Stroke
one_stroke =
    (record { x = pos 1; y = negsuc 4; r = pos 2 }
      ∷ record { x = pos 30; y = pos 8; r = pos 2 }
      ∷ [])
    ∷ []

abbrev stored : Dir
stored = record { index = text (render memory_format two_pages); temporary = false }

abbrev stroke_file : Dir
stroke_file = record { index = text (print_strokes one_stroke); temporary = false }

abbrev on_disk : MemoryStore
on_disk = record {
  entries = [];
  index = stored;
  strokes = λ id. stroke_file;
  floor = record { index = missing; temporary = false };
}

tea-IsPage : IsPage tea
unfolding byte_len len_utf8
tea-IsPage = record {
  id_fits = omega arith;
  transcript_short = omega arith;
  reply_short = omega arith;
  closed = λ e. ground arith;
}

garden-IsPage : IsPage garden
unfolding byte_len len_utf8
garden-IsPage = record {
  id_fits = omega arith;
  transcript_short = omega arith;
  reply_short = omega arith;
  closed = λ e. ground arith;
}

two_pages-IsMemoryList : IsMemoryList two_pages
two_pages-IsMemoryList = record {
  distinct = (refl, (refl, tt));
  sound = (tea-IsPage, (garden-IsPage, tt));
  capped = omega arith;
}

on_disk-loads : load_unlocked memory_format false stored ≡ ok two_pages
on_disk-loads = load-render memory_format memory_codec two_pages stored two_pages-IsMemoryList refl

no_return : last? (lit "the sea") ≢ some b'\r'
no_return e = ground arith

have_strokes : Paged on_disk.strokes (ids two_pages)
have_strokes = ((λ e. cc), ((λ e. cc), tt))

try_append-Appended_example :
    Appended refusing 9
      (lit "sea")
      (lit "the sea")
      one_stroke
      two_pages
      (try_append refusing 9 (lit "sea") (lit "the sea") one_stroke on_disk).0
      (try_append refusing 9 (lit "sea") (lit "the sea") one_stroke on_disk).1
try_append-Appended_example =
    try_append-Appended refusing 9 (lit "sea") (lit "the sea") one_stroke two_pages on_disk
      two_pages-IsMemoryList on_disk-loads no_return (omega arith)

try_append-Paged_example :
    (after : List Entry) × (load_unlocked memory_format false
        (try_append refusing 9 (lit "sea") (lit "the sea") one_stroke on_disk).1.index
      ≡ ok after)
    × Paged
        (try_append refusing 9 (lit "sea") (lit "the sea") one_stroke on_disk).1.strokes
        (ids after)
try_append-Paged_example =
    try_append-Paged refusing 9 (lit "sea") (lit "the sea") one_stroke two_pages on_disk
      two_pages-IsMemoryList on_disk-loads no_return (omega arith) refl have_strokes

delete_number-Deleted_example :
    Deleted 2 20 two_pages
      (delete_number refusing 2 20 on_disk).0
      (delete_number refusing 2 20 on_disk).1
delete_number-Deleted_example =
    delete_number-Deleted refusing 2 20 two_pages on_disk two_pages-IsMemoryList on_disk-loads

recent_dialogue-Newest_example :
    Newest 1 (dialogue_pages false on_disk) (recent_dialogue false 1 on_disk)
recent_dialogue-Newest_example = recent_dialogue-Newest false 1 on_disk

begin_dialogue_session-Begun_example :
    Begun 10 two_pages on_disk
      (begin_dialogue_session refusing.system on_disk).0
      (begin_dialogue_session refusing.system on_disk).1
begin_dialogue_session-Begun_example =
    begin_dialogue_session-Begun refusing.system 10 two_pages on_disk two_pages-IsMemoryList
      on_disk-loads

one_stroke-IsStroke : All IsStroke one_stroke
one_stroke-IsStroke = (
  (
    (
      ((omega arith, omega arith), (omega arith, omega arith), (omega arith, omega arith)),
      (((omega arith, omega arith), (omega arith, omega arith), (omega arith, omega arith)), tt),
    ),
    λ e. cc,
  ),
  tt,
)

parse_strokes-print_strokes_example : parse_strokes (print_strokes one_stroke) ≡ one_stroke
parse_strokes-print_strokes_example = parse_strokes-print_strokes one_stroke one_stroke-IsStroke

civil-next_day_example :
    (date : Day) × (civil (pos 951782400) ≡ at_hour date 0)
    × (civil (pos 951868800) ≡ at_hour (next_day date) 0)
civil-next_day_example = civil-next_day 951782400

catalog-lines_example :
    (lines : List Text) × (catalog (pos 3600) 20 two_pages ≡ some (lines, 9 ∷ 7 ∷ []))
    × (length lines ≡ 2)
    × All (Lacks b'\n') lines
unfolding take
catalog-lines_example = catalog-lines (pos 3600) 20 two_pages
