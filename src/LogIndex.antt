-- ===== src/LogIndex.antt =====
-- The index of a SessionLog's segments, of src/kernel/storage.py: `_validate_sequence` and
-- `_build_session_log_index`, on the segments that `_scan_segment` has read, in the order of their paths.
pub mod Numbered
mod Examples
use aize.Prelude.{
  ℕ, suc, ◌+◌, ◌-◌, String, Bool, true, false, ◌&&◌, not, Option, none, some, List, [], ◌∷◌, ◌++◌,
  ◌==◌, nat_Eq, string_Eq, if◌then◌else◌, length,
}
use aize.State.{LogEntry}
use aize.Storage.{Scan}

pub record Segment : Type 0 where
  pub path : String
  pub start_seq : ℕ
  pub end_seq : ℕ
  pub records : ℕ
  pub bytes : ℕ

pub record Index : Type 0 where
  pub latest_seq : ℕ
  pub record_count : ℕ
  pub message_count : ℕ
  pub segments : List Segment

-- The number expected behind the entries; `none` where StoreError is raised.
unfoldable pub validate_sequence : String → ℕ → List LogEntry → Option ℕ
validate_sequence sid expected [] = some expected
validate_sequence sid expected (e ∷ es) =
    let rest = validate_sequence sid (suc expected) es in
    if e.session_id == sid then if e.seq == expected then rest else none else none

abbrev is_message : LogEntry → ℕ
is_message e = if e.kind == "Message" then 1 else 0

unfoldable pub count_messages : List LogEntry → ℕ
count_messages [] = 0
count_messages (e ∷ es) = is_message e + count_messages es

-- A segment that holds entries runs from the expected number to the one before the next; an empty one
-- has the expected number and the one before it.
abbrev pub segment_of : String → Scan → ℕ → ℕ → Segment
segment_of path scan expected next = record {
  path = path;
  start_seq = expected;
  end_seq = next - 1;
  records = length scan.entries;
  bytes = scan.valid_bytes;
}

-- The index of the first segments with the number that is expected next.
abbrev pub add_segment : String → Scan → ℕ → Option ℕ → Option (ℕ × Index) → Option (ℕ × Index)
add_segment path scan expected none rest = none
add_segment path scan expected (some next) none = none
add_segment path scan expected (some next) (some (last, index)) = some (
  last,
  record {
    latest_seq = index.latest_seq;
    record_count = length scan.entries + index.record_count;
    message_count = count_messages scan.entries + index.message_count;
    segments = segment_of path scan expected next ∷ index.segments;
  },
)

abbrev pub or_start : ℕ → Option ℕ → ℕ
or_start expected none = expected
or_start expected (some next) = next

unfoldable pub build_from : String → Bool → ℕ → List (String × Scan) → Option (ℕ × Index)
unfolding validate_sequence count_messages
build_from sid recover expected [] = some (
  expected,
  record { latest_seq = expected - 1; record_count = 0; message_count = 0; segments = [] },
)
build_from sid recover expected ((path, scan) ∷ segments) =
    let next = validate_sequence sid expected scan.entries in
    let rest = build_from sid recover (or_start expected next) segments in
    if scan.truncated && not recover then none else add_segment path scan expected next rest

unfoldable pub build_session_log_index : String → Bool → List (String × Scan) → Option (ℕ × Index)
unfolding build_from
build_session_log_index sid recover segments = build_from sid recover 1 segments
