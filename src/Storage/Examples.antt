-- ===== src/Storage/Examples.antt =====
-- Tests of the framed segments, with a codec that keeps an entry's sequence number only.
use aize.Prelude.{
  ℕ, ◌+◌, ◌≡◌, refl, List, [], ◌∷◌, ◌++◌, true, false, Option, none, some, length, ◌≤◌,
}
use aize.State.{LogEntry}
use aize.Storage.{Bytes, Scan, take, encode_frames, scan_segment, recovered_file}
use aize.Storage.Written.{scan_segment_after_crash, recovered_file-scan_segment}

abbrev entry : ℕ → LogEntry
entry seq = record {
  log_id = "log";
  seq = seq;
  session_id = "s1";
  kind = "Message";
  created_at = "";
  message_id = "";
  event = none;
  event_key = "";
  message = none;
}

abbrev to_bytes : LogEntry → Bytes
to_bytes e = e.seq ∷ e.seq ∷ []

abbrev of_bytes : Bytes → Option LogEntry
of_bytes [] = none
of_bytes (n ∷ _) = some (entry n)

abbrev sum : Bytes → ℕ
sum [] = 0
sum (b ∷ bs) = b + sum bs

abbrev durable : List LogEntry
durable = entry 1 ∷ entry 2 ∷ []

abbrev pending : List LogEntry
pending = entry 3 ∷ entry 4 ∷ []

-- `sum` of the payload of sequence number n is 2n.
abbrev frame_of : ℕ → Bytes
frame_of n =
    65
    ∷ 73
    ∷ 90
    ∷ 69
    ∷ 76
    ∷ 79
    ∷ 71
    ∷ 50
    ∷ 0
    ∷ 0
    ∷ 0
    ∷ 0
    ∷ 0
    ∷ 0
    ∷ 0
    ∷ 2
    ∷ 0
    ∷ 0
    ∷ 0
    ∷ (n + n)
    ∷ n
    ∷ n
    ∷ []

durable_bytes : encode_frames to_bytes of_bytes sum durable ≡ some (frame_of 1 ++ frame_of 2)
unfolding encode_frames
durable_bytes = refl

pending_bytes : encode_frames to_bytes of_bytes sum pending ≡ some (frame_of 3 ++ frame_of 4)
unfolding encode_frames
pending_bytes = refl

-- A write that is cut inside its second frame.
abbrev torn_write : Bytes
torn_write = (frame_of 1 ++ frame_of 2) ++ take 30 (frame_of 3 ++ frame_of 4)

three_left :
    scan_segment to_bytes of_bytes sum torn_write
    ≡ some
        (record { entries = entry 1 ∷ entry 2 ∷ entry 3 ∷ []; valid_bytes = 66; truncated = true })
unfolding scan_segment
three_left = refl

-- A changed byte of a payload ends the scan in front of its frame.
flipped :
    scan_segment to_bytes of_bytes sum (frame_of 1 ++ take 21 (frame_of 2) ++ 9 ∷ [])
    ≡ some (record { entries = entry 1 ∷ []; valid_bytes = 22; truncated = true })
unfolding scan_segment
flipped = refl

scan_segment_after_crash_example :
    (s : Scan) × (kept : List LogEntry) × (lost : List LogEntry) × (scan_segment to_bytes of_bytes
        sum
        ((frame_of 1 ++ frame_of 2) ++ take 30 (frame_of 3 ++ frame_of 4))
      ≡ some s)
    × (s.entries ≡ durable ++ kept)
    × (pending ≡ kept ++ lost)
    × (length (frame_of 3 ++ frame_of 4) ≤ 30 → lost ≡ [])
scan_segment_after_crash_example =
    scan_segment_after_crash to_bytes of_bytes sum durable pending 30 (refl, (refl, tt))
      (refl, (refl, tt)) durable_bytes pending_bytes

recovered_file-scan_segment_example :
    (s : Scan) × (scan_segment to_bytes of_bytes sum torn_write ≡ some s)
    × (scan_segment to_bytes of_bytes sum (recovered_file to_bytes of_bytes sum torn_write)
        ≡ some (record s { truncated = false }))
    × (recovered_file to_bytes of_bytes sum (recovered_file to_bytes of_bytes sum torn_write)
        ≡ recovered_file to_bytes of_bytes sum torn_write)
recovered_file-scan_segment_example = recovered_file-scan_segment to_bytes of_bytes sum torn_write
