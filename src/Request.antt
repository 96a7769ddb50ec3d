-- ===== src/Request.antt =====
-- request.c: the answer to a GET of a range, which is built in memory before the item is sent.
pub mod Range
pub mod State
pub mod Transfer
pub mod Finish
pub mod Body
pub mod Answer
pub mod Header
pub mod Run
pub mod Alike
pub mod Writes
pub mod Stored
pub mod Sends
pub mod Faults
pub mod Ends
pub mod Loop
pub mod Turns
pub mod Gives
pub mod Begins
pub mod Reads
pub mod System
pub mod Right
pub mod Turn
pub mod Invariant
mod Tests
mod RunTests
use olivehc.Prelude.{ℕ, ◌+◌, ◌-◌, leb, ltb, if◌then◌else◌}
use olivehc.Http.Range.{Position, no_set, at, undefined}

-- `range_start` and `range_end` as they are sent; the page of 416; or a number that the parser
-- did not give.
pub data Partial : Type 0 where
  window : ℕ → ℕ → Partial
  not_satisfiable : Partial
  unknown : Partial

-- For an empty body, of which `body_len - 1` is negative, no end is looked at.
unfoldable pub within_body : ℕ → ℕ → ℕ → Partial
within_body start end body_len = if leb body_len start then not_satisfiable else window start end

unfoldable pub settle_range : Position → Position → ℕ → Partial
unfolding within_body
settle_range undefined q body_len = unknown
settle_range no_set no_set body_len = unknown
settle_range no_set undefined body_len = unknown
settle_range no_set (at n) body_len =
    within_body (if ltb body_len n then 0 else body_len - n) (body_len - 1) body_len
settle_range (at a) undefined body_len = unknown
settle_range (at a) no_set body_len = within_body a (body_len - 1) body_len
settle_range (at a) (at e) body_len =
    within_body a (if leb body_len e then body_len - 1 else e) body_len
