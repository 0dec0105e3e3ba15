-- ===== src/Logs.antt =====
-- The log buffers: `LogState` and `PanicBuffer` of src/log_capture.rs. A lock that is poisoned is
-- not modelled. The file writer and the broadcast channel are the entries handed to them.
pub mod History
mod Tests
use qontinui_supervisor.Prelude.{
  ℕ, String, Bool, true, false, Option, none, some, List, [], ◌∷◌, ◌++◌, if◌then◌else◌,
  push_bounded,
}
use qontinui_supervisor.Prelude.Sort.{sort_by_key}

pub data LogSource : Type 0 where
  runner supervisor build expo : LogSource

pub data LogLevel : Type 0 where
  info warn error debug : LogLevel

pub record LogEntry : Type 0 where
  pub timestamp : ℕ
  pub source : LogSource
  pub level : LogLevel
  pub message : String

abbrev pub panic_window_cap : ℕ
panic_window_cap = 50

-- `PanicBuffer::push`, `drain_joined` and `snapshot_joined` over its lines; the lines are returned
-- as they stand, not joined by line ends.
unfoldable pub push_panic : String → List String → List String
push_panic line buf = push_bounded panic_window_cap line buf

unfoldable pub drain_joined : List String → Option (List String) × List String
drain_joined [] = (none, [])
drain_joined (line ∷ buf) = (some (line ∷ buf), [])

unfoldable pub snapshot_joined : List String → Option (List String)
snapshot_joined [] = none
snapshot_joined (line ∷ buf) = some (line ∷ buf)

pub record LogState : Type 0 where
  pub buffer : List LogEntry
  pub build_buffer : List LogEntry
  pub sent : List LogEntry
  pub file_writer : Option (List LogEntry)
  pub panic_buffer : List String

unfoldable pub new : LogState
new = record { buffer = []; build_buffer = []; sent = []; file_writer = none; panic_buffer = [] }

abbrev pub is_build : LogSource → Bool
is_build build = true
is_build _ = false

abbrev write_entry : LogEntry → Option (List LogEntry) → Option (List LogEntry)
write_entry e none = none
write_entry e (some written) = some (written ++ e ∷ [])

-- The two sizes are `log_buffer_size()` and `build_log_buffer_size()`.
unfoldable pub push : ℕ → ℕ → LogEntry → LogState → LogState
push buffer_size build_size e s =
    let routed =
      if is_build e.source
      then record s { build_buffer = push_bounded build_size e s.build_buffer }
      else record s { buffer = push_bounded buffer_size e s.buffer } in
    record routed { file_writer = write_entry e routed.file_writer; sent = routed.sent ++ e ∷ [] }

unfoldable pub emit : ℕ → ℕ → ℕ → LogSource → LogLevel → String → LogState → LogState
unfolding push
emit buffer_size build_size now source level message s =
    push buffer_size build_size
      (record { timestamp = now; source = source; level = level; message = message }) s

unfoldable pub history : LogState → List LogEntry
history s = s.buffer

unfoldable pub build_history : LogState → List LogEntry
build_history s = s.build_buffer

unfoldable pub merged_history : LogState → List LogEntry
merged_history s = sort_by_key (λ e. e.timestamp) (s.buffer ++ s.build_buffer)
