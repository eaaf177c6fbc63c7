-- ===== src/Child.antt =====
-- include/sub0log/child.hpp: capture of a child's output line by line, the records of a child, and
-- the quoting of its command line. The interceptor is the consumer's code, a parameter.
pub mod Lines
pub mod Ledger
use sub0log.Common.{
  ℕ, zero, suc, ◌+◌, ◌-◌, ◌*◌, ◌%◌, ◌^◌, Bool, true, false, not, ◌&&◌, ◌||◌, Option, none, some,
  List, [], ◌∷◌, ◌++◌, length, take, ltb, ◌==◌, if◌then◌else◌,
}
use sub0log.Common.Bytes.{Bytes, le_bytes}
use sub0log.Wire.{RecordKind, kind_code, inline_bytes_cap}
use sub0log.Chunk.{Reservation}
use sub0log.Logger.{Platform, Producer, reserve_record, commit_record}
use sub0log.Emit.{truncated_flag}

abbrev pub command_line_cap : ℕ
command_line_cap = inline_bytes_cap

abbrev pub line_cap : ℕ
line_cap = inline_bytes_cap * 8

-- `enum class InterceptAction`
pub data InterceptAction : Type 0 where
  log suppress : InterceptAction

-- `enum ChildStream`
pub data ChildStream : Type 0 where
  child_stdout child_stderr : ChildStream

abbrev pub stream_code : ChildStream → ℕ
stream_code child_stdout = 1
stream_code child_stderr = 2

-- `struct ChildLine`
pub record ChildLine : Type 0 where
  pub child_id : ℕ
  pub stream : ChildStream
  pub text : Bytes
  pub truncated : Bool

-- What an interceptor does with a line; `none` is an exception that escapes it.
abbrev pub LineInterceptor : Type 0
LineInterceptor = ChildLine → Option InterceptAction

-- `struct ChildCaptureState`, with the thread that captures when a Logger was bound.
pub record ChildCaptureState : Type 0 where
  pub producer : Option Producer
  pub child_id : ℕ
  pub captured_lines : ℕ
  pub suppressed_lines : ℕ
  pub unlogged_lines : ℕ
  pub truncated_lines : ℕ

-- The images of `ChildStartPayload`, `ChildOutputPayload` and `ChildExitPayload`.
unfoldable pub child_start_image : ℕ → ℕ → ℕ → ℕ → Bytes
child_start_image child_id pid correlation now =
    le_bytes 8 child_id ++ (le_bytes 8 pid ++ (le_bytes 8 correlation ++ le_bytes 8 now))

unfoldable pub child_output_image : ℕ → ℕ → ChildStream → Bytes
child_output_image child_id now stream =
    le_bytes 8 child_id
    ++ (le_bytes 8 now
        ++ (le_bytes 1 (stream_code stream) ++ (le_bytes 1 0 ++ (le_bytes 2 0 ++ le_bytes 4 0))))

unfoldable pub child_exit_image : ℕ → ℕ → ℕ → ℕ → Bytes
child_exit_image child_id now exit_code signal =
    le_bytes 8 child_id ++ (le_bytes 8 now ++ (le_bytes 4 exit_code ++ le_bytes 4 signal))

-- A payload with the time that is read once its space is reserved.
unfoldable pub commit_timed :
    Platform → ℕ → ℕ → (ℕ → Bytes) → Option Reservation × Producer → Bool × Producer
commit_timed p kind flags payload (none, s) = (false, s)
commit_timed p kind flags payload (some slot, s) =
    commit_record kind flags (payload (p.clock s.readings))
      (some slot, record s { readings = s.readings + 1 })

-- `writeChildStart`
unfoldable pub write_child_start :
    Platform → ℕ → ℕ → ℕ → Bytes → Bool → Option Producer → Option Producer
unfolding commit_timed
write_child_start p child_id pid correlation command truncated none = none
write_child_start p child_id pid correlation command truncated (some s) =
    let over = ltb command_line_cap (length command) in
    let text = if over then take command_line_cap command else command in
    some
      (commit_timed p (kind_code RecordKind.child_start) (truncated_flag (truncated || over))
        (λ now.
          child_start_image child_id pid correlation now
          ++ (le_bytes 2 (length text % 2 ^ 16) ++ text))
        (reserve_record p ((32 + 2 + length text) % 2 ^ 32) s)).1

-- `writeChildExit`; exit code and signal as the 32 bits that are stored.
unfoldable pub write_child_exit : Platform → ℕ → ℕ → ℕ → Option Producer → Option Producer
unfolding commit_timed
write_child_exit p child_id exit_code signal none = none
write_child_exit p child_id exit_code signal (some s) =
    some
      (commit_timed p (kind_code RecordKind.child_exit) 0
        (λ now. child_exit_image child_id now exit_code signal) (reserve_record p 24 s)).1

-- `fetch_add(1u)` on one of the counters.
abbrev pub count64 : ℕ → ℕ
count64 n = (n + 1) % 2 ^ 64

abbrev pub counted_line : Bool → ChildCaptureState → ChildCaptureState
counted_line truncated st = record st {
  captured_lines = count64 st.captured_lines;
  truncated_lines = if truncated then count64 st.truncated_lines else st.truncated_lines;
}

-- The action for a line; an exception counts as `log`.
abbrev pub action_of : Option LineInterceptor → ChildLine → InterceptAction
action_of none line = log
action_of (some on_line) line = elim (on_line line) [ none ↦ log | some action ↦ action ]

-- The record of a line, behind the interceptor.
unfoldable pub write_output :
    Platform
    → ChildStream
    → Bytes
    → Bool
    → InterceptAction
    → ChildCaptureState
    → Option Producer
    → ChildCaptureState
unfolding commit_timed
write_output p stream text truncated suppress st l = record st {
  suppressed_lines = count64 st.suppressed_lines;
}
write_output p stream text truncated log st none = record st {
  unlogged_lines = count64 st.unlogged_lines;
}
write_output p stream text truncated log st (some s) = record st {
  producer =
      some
        (commit_timed p (kind_code RecordKind.child_output) (truncated_flag truncated)
          (λ now. child_output_image st.child_id now stream ++ text)
          (reserve_record p ((24 + length text % 2 ^ 32) % 2 ^ 32) s)).1;
}

-- `writeChildOutputLine`
unfoldable pub write_child_output_line :
    Platform
    → Option LineInterceptor
    → ChildStream
    → Bytes
    → Bool
    → ChildCaptureState
    → ChildCaptureState
unfolding write_output
write_child_output_line p on_line stream text truncated st =
    let action =
      action_of on_line
        (record { child_id = st.child_id; stream = stream; text = text; truncated = truncated }) in
    write_output p stream text truncated action (counted_line truncated st) st.producer

-- `carry` and `discardingOverlong`
pub record Carry : Type 0 where
  pub text : Bytes
  pub discarding : Bool

-- `if (!carry.empty() && carry.back() == '\r') carry.pop_back()`
unfoldable pub without_return : Bytes → Bytes
without_return [] = []
without_return (c ∷ []) = if c == 13 then [] else c ∷ []
without_return (c ∷ (d ∷ more)) = c ∷ without_return (d ∷ more)

abbrev pub no_carry : Carry
no_carry = record { text = []; discarding = false }

-- The body of the loop of `processCapturedChunk`: the carry afterwards, and the line that is written.
unfoldable pub process_byte : Carry → ℕ → Carry × Option (Bytes × Bool)
unfolding without_return
process_byte carry c =
    let text = carry.text ++ (c ∷ []) in
    if c == 10
    then (no_carry, if carry.discarding then none else some (without_return carry.text, false))
    else if carry.discarding
    then (carry, none)
    else if ltb line_cap (length text)
    then (record { text = []; discarding = true }, some (take line_cap text, true))
    else (record { text = text; discarding = false }, none)

abbrev pub write_line :
    Platform
    → Option LineInterceptor
    → ChildStream
    → Option (Bytes × Bool)
    → ChildCaptureState
    → ChildCaptureState
write_line p on_line stream none st = st
write_line p on_line stream (some (text, truncated)) st =
    write_child_output_line p on_line stream text truncated st

-- `processCapturedChunk`
unfoldable pub process_captured_chunk :
    Platform
    → Option LineInterceptor
    → ChildStream
    → Bytes
    → Carry
    → ChildCaptureState
    → Carry × ChildCaptureState
unfolding process_byte
process_captured_chunk p on_line stream [] carry st = (carry, st)
process_captured_chunk p on_line stream (c ∷ chunk) carry st =
    let (carry', line) = process_byte carry c in
    process_captured_chunk p on_line stream chunk carry' (write_line p on_line stream line st)

-- The end of `captureLoop`: a partial line is a line.
unfoldable pub flush_carry :
    Platform → Option LineInterceptor → ChildStream → Carry × ChildCaptureState → ChildCaptureState
flush_carry p on_line stream (carry, st) =
    if not carry.discarding && ltb 0 (length carry.text)
    then write_child_output_line p on_line stream carry.text false st
    else st

-- `captureLoop`, over the chunks that the reads deliver before the end of the stream.
unfoldable pub capture_chunks :
    Platform
    → Option LineInterceptor
    → ChildStream
    → List Bytes
    → Carry × ChildCaptureState
    → ChildCaptureState
unfolding flush_carry process_captured_chunk
capture_chunks p on_line stream [] state = flush_carry p on_line stream state
capture_chunks p on_line stream (chunk ∷ chunks) (carry, st) =
    capture_chunks p on_line stream chunks (process_captured_chunk p on_line stream chunk carry st)

-- `std::string(n, '\\')`
abbrev pub repeat : ℕ → Bytes
repeat zero = []
repeat (suc n) = 92 ∷ repeat n

-- One argument of a Windows command line: the characters behind `backslashes` pending ones.
unfoldable pub quote_rest : ℕ → Bytes → Bytes
quote_rest backslashes [] = repeat (backslashes * 2) ++ (34 ∷ [])
quote_rest backslashes (c ∷ arg) =
    let more = quote_rest (backslashes + 1) arg in
    let rest = quote_rest 0 arg in
    if c == 92
    then more
    else if c == 34
    then repeat (backslashes * 2 + 1) ++ (34 ∷ rest)
    else repeat backslashes ++ (c ∷ rest)

-- `arg.find_first_of(" \t\"") == npos`
abbrev pub plain_argument : Bytes → Bool
plain_argument [] = true
plain_argument (c ∷ arg) = not ((c == 32) || (c == 9) || (c == 34)) && plain_argument arg

-- `quoteWindowsCommandLineArgument`
unfoldable pub quote_argument : Bytes → Bytes
unfolding quote_rest
quote_argument arg = if ltb 0 (length arg) && plain_argument arg then arg else 34 ∷ quote_rest 0 arg

-- `buildWindowsCommandLine`
unfoldable pub build_command_line : List Bytes → Bytes
unfolding quote_argument
build_command_line [] = []
build_command_line (arg ∷ []) = quote_argument arg
build_command_line (arg ∷ (next ∷ more)) =
    quote_argument arg ++ (32 ∷ build_command_line (next ∷ more))
