-- ===== src/Child/Lines.antt =====
-- `processCapturedChunk` and the loop around it (include/sub0log/child.hpp), against a description that
-- knows neither reads nor a carry.
use sub0log.Common.{
  Bool, true, false, Option, List, [], ◌∷◌, ◌++◌, length, take, ltb, ◌==◌, if◌then◌else◌,
}
use sub0log.Common.Bytes.{Bytes}
use sub0log.Logger.{Platform}
use sub0log.Child.{
  ChildStream, ChildCaptureState, LineInterceptor, Carry, line_cap, without_return,
  write_child_output_line, process_captured_chunk, flush_carry,
}

-- A line that ended is cut at the cap, or its carriage return is dropped; the rest of the stream
-- behind the last line end is a line unless it is empty.
abbrev pub line_of : Bytes → Bytes × Bool
line_of text =
    if ltb line_cap (length text) then (take line_cap text, true) else (without_return text, false)

abbrev pub last_line : Bytes → List (Bytes × Bool)
last_line text =
    if ltb line_cap (length text)
    then (take line_cap text, true) ∷ []
    else if ltb 0 (length text)
    then (text, false) ∷ []
    else []

-- The lines of a whole stream, the part `text` of the current line before it.
unfoldable pub lines_of : Bytes → Bytes → List (Bytes × Bool)
lines_of text [] = last_line text
lines_of text (c ∷ stream) =
    let ended = lines_of [] stream in
    let more = lines_of (text ++ (c ∷ [])) stream in if c == 10 then line_of text ∷ ended else more

-- The stream that reads deliver.
abbrev pub joined : List Bytes → Bytes
joined [] = []
joined (chunk ∷ chunks) = chunk ++ joined chunks

module _ (p : Platform) (on_line : Option LineInterceptor) (from : ChildStream) where
  unfoldable pub write_lines : List (Bytes × Bool) → ChildCaptureState → ChildCaptureState
  write_lines [] st = st
  write_lines ((text, truncated) ∷ more) st =
      write_lines more (write_child_output_line p on_line from text truncated st)

  abbrev run : Carry → Bytes → ChildCaptureState → ChildCaptureState
  run carry stream st =
      flush_carry p on_line from (process_captured_chunk p on_line from stream carry st)
