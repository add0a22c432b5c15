-- ===== src/Storage/Written.antt =====
-- What survives of the frames that were written.
use aize.Prelude.{
  ℕ, zero, suc, ◌%◌, ◌+◌, ◌-◌, ◌≤◌, ◌<◌, ◌≡◌, refl, ap, ◌∙◌, sym, subst, List, [], ◌∷◌, ◌++◌, arith,
  length, length-append, Bool, true, false, Option, some, ltb, Bool-cases, inl, inr, Option-cases,
  beq_refl, nat_Eq, All,
}
use mathlib.Core.List.{append_assoc, append-nil}
use mathlib.Core.Option.{some-injective}
use aize.State.{LogEntry}
use aize.Storage.{
  Bytes, take, Scan, scan_segment, recovered_file, header_size, max_frame_bytes, encode_frame,
  encode_frames, length_of, checksum_of, to_be, from_be, checksum, header_for, truncate_to,
}
use aize.Storage.Bytes.{take-append, take-append_left, take-append_right, take_all, from_be-to_be}
use aize.Storage.Frames.{IsFrame, read_frame_torn}
use aize.Storage.Recovery.{Holds, Stops, Holds-append, scan-Holds, scan-IsScan, IsScan}

module _ (dumps : LogEntry → Bytes) (loads : Bytes → Option LogEntry) (crc32 : Bytes → ℕ) where
  -- A write of frames that was cut after `k` bytes: the frames in front of the cut are whole.
  pub record IsCut (k : ℕ) (bytes : Bytes) (es : List LogEntry) : Type 0 where
    pub kept : List LogEntry
    pub lost : List LogEntry
    pub good : Bytes
    pub rest : Bytes
    pub torn_at : Bool
    pub entries : es ≡ kept ++ lost
    pub split : take k bytes ≡ good ++ rest
    pub holds : Holds dumps loads crc32 good kept
    pub stops : Stops dumps loads crc32 rest torn_at
    pub whole : length bytes ≤ k → lost ≡ []

  take-IsCut :
      (k : ℕ) (bytes : Bytes) (es : List LogEntry)
      → Holds dumps loads crc32 bytes es
      → IsCut k bytes es
  take-IsCut k bytes [] h = record {
    kept = [];
    lost = [];
    good = [];
    rest = [];
    torn_at = false;
    entries = refl;
    split = ap (take k) h ∙ take_all k [] (omega arith);
    holds = refl;
    stops = inl (refl, refl);
    whole = λ _. refl;
  }
  take-IsCut k bytes (e ∷ es) (header, payload, more, split, f, h) =
      let size : length bytes ≡ length (header ++ payload) + length more =
        ap length split ∙ length-append (header ++ payload) more in
      elim (Bool-cases (ltb k (length (header ++ payload)))) [
        | inr long ↦
            let past : length (header ++ payload) ≤ k = ground (arith, long) in
            let c = take-IsCut (k - length (header ++ payload)) more es h in
            record {
              kept = e ∷ c.kept;
              lost = c.lost;
              good = (header ++ payload) ++ c.good;
              rest = c.rest;
              torn_at = c.torn_at;
              entries = ap (λ l. e ∷ l) c.entries;
              split =
                  ap (take k) split
                  ∙ take-append_right k (k - length (header ++ payload)) (header ++ payload) more
                      (omega (arith, past))
                  ∙ ap (λ b. (header ++ payload) ++ b) c.split
                  ∙ sym (append_assoc (header ++ payload) c.good c.rest);
              holds = (header, payload, c.good, refl, f, c.holds);
              stops = c.stops;
              whole = λ w. c.whole (omega (arith, size, w, past));
            }
        | inl short ↦
            let inside : k < length (header ++ payload) = ground (arith, short) in
            let (at_cut, stops) = cut_stops header payload e k f inside in
            record {
              kept = [];
              lost = e ∷ es;
              good = [];
              rest = take k (header ++ payload);
              torn_at = at_cut;
              entries = refl;
              split =
                  ap (take k) split
                  ∙ take-append_left k (header ++ payload) more (omega (arith, inside));
              holds = refl;
              stops = stops;
              whole = λ w. absurd (omega (arith, size, w, inside));
            }
      ]
    where
      cut_stops :
          (header payload : Bytes) (e : LogEntry) (k : ℕ)
          → IsFrame dumps loads crc32 header payload e
          → k < length (header ++ payload)
          → (t : Bool) × Stops dumps loads crc32 (take k (header ++ payload)) t
      cut_stops header payload e zero f inside = (false, inl (refl, refl))
      cut_stops header payload e (suc k) f inside = (
        true,
        inr (
          read_frame_torn dumps loads crc32 header payload e (suc k) f (omega arith) inside,
          refl,
        ),
      )

  header_fields :
      (payload : Bytes)
      → (length (header_for dumps loads crc32 payload) ≡ header_size)
        × (length_of (header_for dumps loads crc32 payload) ≡ from_be (to_be 8 (length payload)) 0)
        × (checksum_of (header_for dumps loads crc32 payload)
            ≡ from_be (to_be 4 (checksum dumps loads crc32 payload)) 0)
  unfolding to_be
  header_fields payload = (refl, refl, refl)

  abbrev pub IsDecodable : LogEntry → Type 0
  IsDecodable e = loads (dumps e) ≡ some e

  checksum_small : (n : ℕ) → n % 4294967296 < 4294967296
  checksum_small n = omega arith

  encode-IsFrame :
      (e : LogEntry) {f : Bytes}
      → loads (dumps e) ≡ some e
      → encode_frame dumps loads crc32 e ≡ some f
      → (f ≡ header_for dumps loads crc32 (dumps e) ++ dumps e)
        × IsFrame dumps loads crc32 (header_for dumps loads crc32 (dumps e)) (dumps e) e
  unfolding encode_frame
  encode-IsFrame e {f} json h = elim (Bool-cases (ltb max_frame_bytes (length (dumps e)))) [
    | inl t ↦ cc (rw t at h)
    | inr small ↦
        let (size, len, sum) = header_fields (dumps e) in
        let bound : length (dumps e) < 18446744073709551616 = ground (arith, small) in
        let len' : length_of (header_for dumps loads crc32 (dumps e)) ≡ length (dumps e) =
          len ∙ from_be-to_be 8 (length (dumps e)) bound in
        let sum' : checksum_of (header_for dumps loads crc32 (dumps e))
            ≡ checksum dumps loads crc32 (dumps e) =
          sum
          ∙ from_be-to_be 4 (checksum dumps loads crc32 (dumps e))
              (checksum_small (crc32 (dumps e))) in
        (
          some-injective _ _ (sym (rw small at h)),
          record {
            size = size;
            magic = refl;
            small = rw len' small;
            payload_size = sym len';
            sum = rw sum' (beq_refl (checksum dumps loads crc32 (dumps e)));
            loaded = json;
          },
        )
  ]

  pub encode_frames-Holds :
      (es : List LogEntry) {bytes : Bytes}
      → All IsDecodable es
      → encode_frames dumps loads crc32 es ≡ some bytes
      → Holds dumps loads crc32 bytes es
  unfolding encode_frames
  encode_frames-Holds [] json h = some-injective _ _ (sym h)
  encode_frames-Holds (e ∷ es) {bytes} json h =
      elim (Option-cases (encode_frame dumps loads crc32 e)) [
        | inl bad ↦ cc (rw bad at h)
        | inr (f, good) ↦ elim (Option-cases (encode_frames dumps loads crc32 es)) [
          | inl bad ↦ cc (rw (good, bad) at h)
          | inr (more, goods) ↦
              let (is, framed) = encode-IsFrame e json.0 good in
              (
                header_for dumps loads crc32 (dumps e),
                dumps e,
                more,
                some-injective _ _ (sym (rw (good, goods) at h)) ∙ ap (λ b. b ++ more) is,
                framed,
                encode_frames-Holds es json.1 goods,
              )
        ]
      ]

  -- The entries of a segment that was written by whole appends of `durable` and then an append of
  -- `pending` cut after `k` bytes, as `_scan_segment` finds them: all of `durable` and a first part
  -- of `pending`, which is all of `pending` where the whole append reached the file. Decoding gives
  -- back each of these entries.
  pub scan_segment_after_crash :
      (durable pending : List LogEntry) (k : ℕ) {d p : Bytes}
      → All IsDecodable durable
      → All IsDecodable pending
      → encode_frames dumps loads crc32 durable ≡ some d
      → encode_frames dumps loads crc32 pending ≡ some p
      → (s : Scan) × (kept : List LogEntry) × (lost : List LogEntry) × (scan_segment dumps loads
            crc32
            (d ++ take k p)
          ≡ some s)
        × (s.entries ≡ durable ++ kept)
        × (pending ≡ kept ++ lost)
        × (length p ≤ k → lost ≡ [])
  unfolding scan_segment
  scan_segment_after_crash durable pending k {d} {p} json json' hd hp =
      let c = take-IsCut k p pending (encode_frames-Holds pending json' hp) in
      let all =
        Holds-append dumps loads crc32 d c.good durable c.kept (encode_frames-Holds durable json hd)
          c.holds in
      let join : (d ++ c.good) ++ c.rest ≡ d ++ take k p =
        append_assoc d c.good c.rest ∙ ap (λ b. d ++ b) (sym c.split) in
      (
        _,
        c.kept,
        c.lost,
        ap (scan_segment dumps loads crc32) (sym join)
            ∙ scan-Holds dumps loads crc32 (suc (length ((d ++ c.good) ++ c.rest))) (d ++ c.good)
                c.rest (durable ++ c.kept) c.torn_at all c.stops (omega arith),
        refl,
        c.entries,
        c.whole,
      )

  scan_good :
      (good : Bytes) (es : List LogEntry)
      → Holds dumps loads crc32 good es
      → scan_segment dumps loads crc32 good
        ≡ some (record { entries = es; valid_bytes = length good; truncated = false })
  unfolding scan_segment
  scan_good good es h =
      subst
        (λ b.
          scan_segment dumps loads crc32 b
          ≡ some (record { entries = es; valid_bytes = length good; truncated = false }))
        (append-nil good)
        (scan-Holds dumps loads crc32 (suc (length (good ++ []))) good [] es false h
          (inl (refl, refl)) (omega arith))

  recovered_good :
      (bytes : Bytes) (s : Scan)
      → scan_segment dumps loads crc32 bytes ≡ some s
      → (i : IsScan dumps loads crc32 bytes s) → recovered_file dumps loads crc32 bytes ≡ i.good
  unfolding recovered_file
  recovered_good bytes s read i = ap (truncate_to dumps loads crc32 bytes) read ∙ elim (i.stops) [
    | inl (empty, clean) ↦ rw clean (i.split ∙ ap (λ b. i.good ++ b) empty ∙ append-nil i.good)
    | inr (cut, dirty) ↦
        rw (dirty, i.size) (ap (take (length i.good)) i.split ∙ take-append i.good i.rest)
  ]

  -- `_scan_segment` ends on every file, and recovery loses nothing that it read: the truncated file
  -- has the same entries and no torn frame, so that recovering it again changes nothing.
  pub recovered_file-scan_segment :
      (bytes : Bytes)
      → (s : Scan) × (scan_segment dumps loads crc32 bytes ≡ some s)
        × (scan_segment dumps loads crc32 (recovered_file dumps loads crc32 bytes)
            ≡ some (record s { truncated = false }))
        × (recovered_file dumps loads crc32 (recovered_file dumps loads crc32 bytes)
            ≡ recovered_file dumps loads crc32 bytes)
  unfolding recovered_file
  recovered_file-scan_segment bytes =
      let (s, read, i) = scan-IsScan dumps loads crc32 (suc (length bytes)) bytes (omega arith) in
      let good : recovered_file dumps loads crc32 bytes ≡ i.good = recovered_good bytes s read i in
      let clean = scan_good i.good s.entries i.holds in
      (
        s,
        read,
        rw (good, i.size) clean,
        ap (recovered_file dumps loads crc32) good
            ∙ ap (truncate_to dumps loads crc32 i.good) clean
            ∙ sym good,
      )
