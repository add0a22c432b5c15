-- ===== src/Storage.antt =====
-- The framed SessionLog segments of src/kernel/storage.py: `_encode_frame`, `_scan_segment`, with the
-- file as its bytes. `dumps` stands for `json.dumps(...).encode("utf-8")`, `loads` for `json.loads` of
-- the decoded payload (`none` where it raises or gives no object) and `crc32` for `zlib.crc32`.
pub mod Bytes
pub mod Frames
pub mod Recovery
pub mod Written
mod Examples
use aize.Prelude.{
  ℕ, zero, suc, ◌+◌, ◌*◌, ◌/◌, ◌%◌, Bool, true, false, ◌&&◌, ◌||◌, not, Option, none, some, List,
  [], ◌∷◌, ◌++◌, ◌==◌, nat_Eq, if◌then◌else◌, ltb, length,
}
use aize.State.{LogEntry}

abbrev pub Bytes : Type 0
Bytes = List ℕ

-- `FRAME_MAGIC`, the bytes of "AIZELOG2".
abbrev pub frame_magic : Bytes
frame_magic = 65 ∷ 73 ∷ 90 ∷ 69 ∷ 76 ∷ 79 ∷ 71 ∷ 50 ∷ []

-- `FRAME_HEADER.size` of ">8sQI".
abbrev pub header_size : ℕ
header_size = 20

abbrev pub max_frame_bytes : ℕ
max_frame_bytes = 16777216

abbrev pub take : ℕ → Bytes → Bytes
take zero bs = []
take (suc n) [] = []
take (suc n) (b ∷ bs) = b ∷ take n bs

abbrev pub drop : ℕ → Bytes → Bytes
drop zero bs = bs
drop (suc n) [] = []
drop (suc n) (b ∷ bs) = drop n bs

abbrev pub bytes_beq : Bytes → Bytes → Bool
bytes_beq [] [] = true
bytes_beq [] (c ∷ cs) = false
bytes_beq (b ∷ bs) [] = false
bytes_beq (b ∷ bs) (c ∷ cs) = b == c && bytes_beq bs cs

-- `struct` in big-endian order: `n` in `k` bytes, and back.
unfoldable pub to_be : ℕ → ℕ → Bytes
to_be zero n = []
to_be (suc k) n = to_be k (n / 256) ++ n % 256 ∷ []

unfoldable pub from_be : Bytes → ℕ → ℕ
from_be [] acc = acc
from_be (b ∷ bs) acc = from_be bs (acc * 256 + b)

-- The fields of `FRAME_HEADER.unpack(header)`.
abbrev pub magic_of : Bytes → Bytes
magic_of header = take 8 header

abbrev pub length_of : Bytes → ℕ
length_of header = from_be (take 8 (drop 8 header)) 0

abbrev pub checksum_of : Bytes → ℕ
checksum_of header = from_be (drop 16 header) 0

-- One turn of the loop of `_scan_segment`: the end of the file, a break with `truncated`, or an
-- entry with the size of its frame and the rest of the file.
pub data Turn : Type 0 where
  finished : Turn
  torn : Turn
  frame : LogEntry → ℕ → Bytes → Turn

pub record Scan : Type 0 where
  pub entries : List LogEntry
  pub valid_bytes : ℕ
  pub truncated : Bool

abbrev pub add_entry : LogEntry → ℕ → Option Scan → Option Scan
add_entry e n none = none
add_entry e n (some s) =
    some
      (record { entries = e ∷ s.entries; valid_bytes = n + s.valid_bytes; truncated = s.truncated })

abbrev pub nothing_read : Bool → Scan
nothing_read t = record { entries = []; valid_bytes = 0; truncated = t }

abbrev pub after_turn : Turn → (Bytes → Option Scan) → Option Scan
after_turn finished next = some (nothing_read false)
after_turn torn next = some (nothing_read true)
after_turn (frame e n rest) next = add_entry e n (next rest)

module _ (dumps : LogEntry → Bytes) (loads : Bytes → Option LogEntry) (crc32 : Bytes → ℕ) where
  -- `zlib.crc32(payload) & 0xFFFFFFFF`
  abbrev pub checksum : Bytes → ℕ
  checksum payload = crc32 payload % 4294967296

  abbrev pub header_for : Bytes → Bytes
  header_for payload = frame_magic ++ to_be 8 (length payload) ++ to_be 4 (checksum payload)

  -- `none` where the code raises StoreError.
  unfoldable pub encode_frame : LogEntry → Option Bytes
  unfolding to_be
  encode_frame e =
      if ltb max_frame_bytes (length (dumps e))
      then none
      else some (header_for (dumps e) ++ dumps e)

  abbrev pub decoded : Option LogEntry → ℕ → Bytes → Turn
  decoded none n rest = torn
  decoded (some e) n rest = frame e n rest

  abbrev pub read_payload : Bytes → Bytes → Turn
  read_payload header rest =
      let payload = take (length_of header) rest in
      if not (length payload == length_of header) || not (checksum payload == checksum_of header)
      then torn
      else decoded (loads payload) (header_size + length_of header) (drop (length_of header) rest)

  unfoldable pub read_frame : Bytes → Turn
  unfolding from_be
  read_frame bytes =
      let header = take header_size bytes in
      if length header == 0
      then finished
      else if not (length header == header_size)
      then torn
      else if not (bytes_beq (magic_of header) frame_magic)
          || ltb max_frame_bytes (length_of header)
      then torn
      else read_payload header (drop header_size bytes)

  -- The `while True` loop. `none` means that the fuel ran out.
  unfoldable pub scan : ℕ → Bytes → Option Scan
  unfolding read_frame
  scan zero bytes = none
  scan (suc fuel) bytes = after_turn (read_frame bytes) (scan fuel)

  unfoldable pub scan_segment : Bytes → Option Scan
  unfolding scan
  scan_segment bytes = scan (suc (length bytes)) bytes

  -- The file after `_scan_segment(path, recover=True)`.
  abbrev pub truncate_to : Bytes → Option Scan → Bytes
  truncate_to bytes none = bytes
  truncate_to bytes (some s) = if s.truncated then take s.valid_bytes bytes else bytes

  unfoldable pub recovered_file : Bytes → Bytes
  unfolding scan_segment
  recovered_file bytes = truncate_to bytes (scan_segment bytes)

  -- `b"".join(frames)` of `[self._encode_frame(entry) for entry in pending]`.
  abbrev pub join_frame : Option Bytes → Option Bytes → Option Bytes
  join_frame none rest = none
  join_frame (some f) none = none
  join_frame (some f) (some rest) = some (f ++ rest)

  unfoldable pub encode_frames : List LogEntry → Option Bytes
  unfolding encode_frame
  encode_frames [] = some []
  encode_frames (e ∷ es) = join_frame (encode_frame e) (encode_frames es)
