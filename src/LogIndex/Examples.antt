-- ===== src/LogIndex/Examples.antt =====
-- Tests of the index, and its theorem at concrete segments.
use aize.Prelude.{
  ℕ, String, ◌≡◌, refl, Bool, true, false, Option, none, some, List, [], ◌∷◌, length,
}
use aize.State.{LogEntry}
use aize.Storage.{Scan}
use aize.LogIndex.{Index, build_session_log_index}
use aize.LogIndex.Numbered.{Numbered, all_entries, build_session_log_index-Numbered}

abbrev entry : ℕ → String → LogEntry
entry seq kind = record {
  log_id = "log";
  seq = seq;
  session_id = "s1";
  kind = kind;
  created_at = "";
  message_id = "";
  event = none;
  event_key = "";
  message = none;
}

abbrev scanned : List LogEntry → ℕ → Bool → Scan
scanned entries bytes torn = record { entries = entries; valid_bytes = bytes; truncated = torn }

abbrev segments : List (String × Scan)
segments =
    ("1", scanned (entry 1 "Message" ∷ entry 2 "SystemSignal" ∷ []) 60 false)
    ∷ ("3", scanned (entry 3 "Message" ∷ []) 30 true)
    ∷ []

abbrev index_or : Option (ℕ × Index) → Index
index_or none = record { latest_seq = 0; record_count = 0; message_count = 0; segments = [] }
index_or (some (last, index)) = index

two_messages : (index_or (build_session_log_index "s1" true segments)).message_count ≡ 2
unfolding build_session_log_index
two_messages = refl

-- Without recovery a torn frame is an error, and so is a gap.
refuses_torn : build_session_log_index "s1" false segments ≡ none
unfolding build_session_log_index
refuses_torn = refl

refuses_gap :
    build_session_log_index "s1" true (("2", scanned (entry 2 "Message" ∷ []) 30 false) ∷ []) ≡ none
unfolding build_session_log_index
refuses_gap = refl

build_session_log_index-Numbered_example :
    (Numbered "s1" 1 (all_entries segments)
      → (last : ℕ) × (index : Index) × (build_session_log_index "s1" true segments
          ≡ some (last, index)))
    × ((last : ℕ) (index : Index)
        → build_session_log_index "s1" true segments ≡ some (last, index)
        → Numbered "s1" 1 (all_entries segments)
          × (index.latest_seq ≡ length (all_entries segments))
          × (index.record_count ≡ length (all_entries segments)))
build_session_log_index-Numbered_example = build_session_log_index-Numbered "s1" segments
