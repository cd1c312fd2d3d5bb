-- ===== src/Lib.antt =====
-- Riddle (MagicPaper): a handwriting assistant for an e-paper tablet. This library models the parts
-- of it that keep state of their own and that the rest of the program relies on.
--
-- The persistent lists (src/storage). A list of recurring tasks and a list of notes live each in one
-- tab-separated index file. Handwritten commands are parsed, and every change is a transaction: take
-- the lock, reload the file, decide, replace the file atomically, and recover if that fails.
--   Storage/Escape, Storage/Persistence   src/storage/persistence.rs (`unescape_field`,
--     `read_optional_utf8`, `atomic_write`) and `escape` of src/storage/tasks/formatting.rs
--   Storage/Index   what the two stores and the page memories each write out:
--     `load_unlocked`, `persist`, `recover_after_failed_persist` and the shape of every operation, for
--     any `Format` of lines; Index/RoundTrip has the interface `Codec` that a format's lines fulfil
--   Storage/Tasks   src/storage/tasks/mod.rs; Tasks/Command is src/storage/tasks/parser.rs,
--     Tasks/Listing src/storage/tasks/formatting.rs and the listings, Tasks/Operations the operations
--   Storage/Todos   src/storage/todos.rs
-- The operating system is the argument `Env`: whether the lock, the read, the replacement (and at
-- which step) and the read that recovers fail. A transaction holds the lock throughout, so that other
-- processes act between transactions only, on the directory that the next one reloads. Paths and
-- messages are not modelled, errors are constructors.
--
-- The page memories (src/storage/memory.rs, src/storage/memory/dialogue.rs): Storage/Memory, on the same
-- index. Memory/Strokes is the stroke files, Memory/Appending `try_append` and `delete_number` with the
-- files that they write and remove (`MemoryEnv` says which removals fail), Memory/Dialogue the boundary
-- of a conversation and `recent_dialogue`, Memory/Dates `civil` and `spoken_date`, Memory/Listing the
-- catalog and the history page. A reply that ends in a carriage return is not read back as it was,
-- since `lines` takes the carriage return; the theorems on appending leave it out.
--
-- Contacts (src/ui/pointer.rs): Ui/Pointer has the rectangles and `classify`. Paper lists
-- (src/ui/paper_list.rs, src/ui/paper_list/geometry.rs): Ui/PaperList has the rows and pages that
-- `redraw` lays out, `hit_test` and `interact`, PaperList/Previews the feedback while a contact is held.
-- The rectangle that the renderer returns for the text of a row is a field of `Content`.
--
-- The settings (src/preferences.rs): Preferences has the range of the values and the file that they are
-- written to, which may be missing, damaged or of the old schema; JSON is a record of two functions, and
-- each step of writing may fail. Ui/Sliders is the sliders of src/ui/settings.rs that set the values. App/Refresh (src/app/refresh_controller.rs) counts replies until the
-- panel is refreshed in full.
--
-- The pen's gate (src/app/input.rs, src/app/state.rs): App/Input has the mode of each state, `gate_pen_frame` and
-- the repair of the host's pen stream; Input/Streams has the phases that src/app/runtime/input_loop.rs
-- makes of it, given the state of the application in which each event is handled.
--
-- The foreground policy (src/domain.rs): Domain, with the invariant of its model in Domain/Policy and
-- its effects against the page that carries them out in Domain/Effects.
--
-- The lifecycle channel (src/app/lifecycle.rs, src/app/lifecycle/wire.rs): App/Wire has the envelopes,
-- App/Wire/Decoding `decode_frames` and what it calls; App/Lifecycle the client with `accept_frame`
-- and the queueing of events, App/Lifecycle/Output `flush_outbound`, `flush_for` and the reports,
-- App/Lifecycle/Polling `poll`. The JSON library is the record `Json` of the functions that the code
-- calls, with no hypothesis on them. A transport is the list of the answers to its reads and writes;
-- when they run out it would block. A reading of the monotonic clock is a function of the last stamp.
--
-- The power key (src/power.rs): Power has `ClickTracker`, with an instant as a number of milliseconds.
--
-- Text is a list of Unicode scalar values (Text), bytes are numbers. Machine integers are natural
-- numbers; where the source saturates or checks, Text/Decimal does so at 2^64 - 1; `i32` and `i64`
-- arithmetic is that of Prelude/Integers, wrapped around or saturated. The loop over
-- length-prefixed frames runs on fuel, one more than the bytes in the buffer: each frame takes five at
-- least, and Wire/Chunks shows that the result does not depend on the fuel from there on. `flush_for`
-- takes as a number the rounds that its deadline leaves time for.
--
-- Not modelled: devices, sockets and processes, rendering and the other panels, the agent and its network
-- calls, and the device loops that call the parts above.
pub mod Prelude
pub mod Text
pub mod Storage
pub mod Domain
pub mod App
pub mod Power
pub mod Ui
pub mod Preferences
