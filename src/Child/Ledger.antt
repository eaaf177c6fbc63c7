-- ===== src/Child/Ledger.antt =====
-- Line capture (include/sub0log/child.hpp) against the reader: what becomes of the lines of a stream.
use sub0log.Common.{
  ℕ, ◌+◌, ◌%◌, ◌^◌, ◌≤◌, ◌<◌, ◌≡◌, Bool, Option, some, List, [], ◌∷◌, ◌++◌, length,
}
use sub0log.Common.Bytes.{Bytes}
use sub0log.Wire.{RecordKind, kind_code}
use sub0log.Protocol.{Request}
use sub0log.Logger.{Producer}
use sub0log.Logger.Log.{log}
use sub0log.Logger.Claims.{Ready}
use sub0log.Emit.{truncated_flag}
use sub0log.Child.{
  ChildStream, ChildCaptureState, LineInterceptor, InterceptAction, line_cap, child_output_image,
  action_of,
}

-- The record of a line at a time.
abbrev pub output_record : ℕ → ChildStream → ℕ → Bytes × Bool → Request
output_record child_id from now (text, truncated) = record {
  kind = kind_code RecordKind.child_output;
  flags = truncated_flag truncated;
  payload = child_output_image child_id now from ++ text;
}

-- What the interceptor says of a line.
abbrev pub answer : Option LineInterceptor → ℕ → ChildStream → Bytes × Bool → InterceptAction
answer on_line child_id from (text, truncated) =
    action_of on_line
      (record { child_id = child_id; stream = from; text = text; truncated = truncated })

-- Each line in turn: its record is found, or it is lost, or the interceptor suppressed it.
pub data Fates (on_line : Option LineInterceptor) (child_id : ℕ) (from : ChildStream)
    : List (Bytes × Bool) → List Request → ℕ → ℕ → Type 0 where
  ended : Fates on_line child_id from [] [] 0 0
  found :
      (line : Bytes × Bool) (now : ℕ) {lines : List (Bytes × Bool)} {rs : List Request}
      {lost quiet : ℕ}
      → answer on_line child_id from line ≡ InterceptAction.log
      → Fates on_line child_id from lines rs lost quiet
      → Fates on_line child_id from
          (line ∷ lines)
          (output_record child_id from now line ∷ rs)
          lost
          quiet
  dropped :
      (line : Bytes × Bool) {lines : List (Bytes × Bool)} {rs : List Request} {lost quiet : ℕ}
      → answer on_line child_id from line ≡ InterceptAction.log
      → Fates on_line child_id from lines rs lost quiet
      → Fates on_line child_id from (line ∷ lines) rs (1 + lost) quiet
  suppressed :
      (line : Bytes × Bool) {lines : List (Bytes × Bool)} {rs : List Request} {lost quiet : ℕ}
      → answer on_line child_id from line ≡ InterceptAction.suppress
      → Fates on_line child_id from lines rs lost quiet
      → Fates on_line child_id from (line ∷ lines) rs lost (1 + quiet)

abbrev Short : Bytes × Bool → Type 0
Short line = length line.0 ≤ line_cap

-- Between two states of a capture: new records, and the counters for the lines between them.
pub record Captured (st st' : ChildCaptureState) (s s' : Producer) (k' lines lost quiet : ℕ)
    (rs : List Request) : Type 0 where
  pub bound : st'.producer ≡ some s'
  pub ready : Ready s' k'
  pub logged : log s' ≡ log s ++ rs
  pub dropped : s'.logger.dropped ≡ (s.logger.dropped + lost) % 2 ^ 64
  pub suppressed : st'.suppressed_lines ≡ (st.suppressed_lines + quiet) % 2 ^ 64
  pub captured : st'.captured_lines ≡ (st.captured_lines + lines) % 2 ^ 64
  pub unlogged : st'.unlogged_lines ≡ st.unlogged_lines
  pub same_child : st'.child_id ≡ st.child_id

-- Counters below their wrap.
pub record Counts (st : ChildCaptureState) (s : Producer) : Type 0 where
  pub dropped : s.logger.dropped < 2 ^ 64
  pub suppressed : st.suppressed_lines < 2 ^ 64
  pub captured : st.captured_lines < 2 ^ 64

-- What a capture of a stream with these lines accounts for.
abbrev pub Accounted :
    Option LineInterceptor
    → ChildStream
    → List (Bytes × Bool)
    → ChildCaptureState
    → ChildCaptureState
    → Producer
    → Type 0
Accounted on_line from lines st st' s =
    (k' : ℕ) × (s' : Producer) × (lost : ℕ) × (quiet : ℕ) × (rs : List Request) × Captured st st' s
      s' k' (length lines) lost quiet rs
    × Fates on_line st.child_id from lines rs lost quiet
