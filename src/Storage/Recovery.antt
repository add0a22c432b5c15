-- ===== src/Storage/Recovery.antt =====
-- Scanning a segment and recovering it after a torn write.
use mathlib.Core.List.{append_assoc}
use aize.Prelude.{
  ℕ, zero, suc, ◌+◌, ◌<◌, ◌≡◌, refl, ap, ◌∙◌, sym, subst, List, [], ◌∷◌, ◌++◌, arith, length,
  length-append, Bool, true, false, Option, some, ◌⊎◌, inl, inr,
}
use aize.State.{LogEntry}
use aize.Storage.{
  Bytes, Scan, Turn, frame, torn, finished, read_frame, scan, nothing_read, after_turn, add_entry,
}
use aize.Storage.Frames.{IsFrame, read_frame-IsFrame, frame-Accepted, read_frame_finished}

module _ (dumps : LogEntry → Bytes) (loads : Bytes → Option LogEntry) (crc32 : Bytes → ℕ) where
  -- Bytes that are the frames of these entries, one behind the other.
  abbrev pub Holds : Bytes → List LogEntry → Type 0
  Holds good [] = good ≡ []
  Holds good (e ∷ es) =
      (header : Bytes) × (payload : Bytes) × (more : Bytes) × (good ≡ (header ++ payload) ++ more)
      × IsFrame dumps loads crc32 header payload e
      × Holds more es

  -- Where the loop stops, and whether it reports a torn frame there.
  abbrev pub Stops : Bytes → Bool → Type 0
  Stops rest t =
      ((rest ≡ []) × (t ≡ false)) ⊎ ((read_frame dumps loads crc32 rest ≡ torn) × (t ≡ true))

  pub Holds-append :
      (d g : Bytes) (ds gs : List LogEntry) → Holds d ds → Holds g gs → Holds (d ++ g) (ds ++ gs)
  Holds-append d g [] gs h k = subst (λ b. Holds (b ++ g) gs) (sym h) k
  Holds-append d g (e ∷ ds) gs (header, payload, more, split, f, h) k = (
    header,
    payload,
    more ++ g,
    ap (λ b. b ++ g) split ∙ append_assoc (header ++ payload) more g,
    f,
    Holds-append more g ds gs h k,
  )

  frame_size :
      (header payload rest : Bytes) (e : LogEntry)
      → IsFrame dumps loads crc32 header payload e
      → length rest < length ((header ++ payload) ++ rest)
  frame_size header payload rest e f =
      omega (arith, f.size, length-append header payload, length-append (header ++ payload) rest)

  scan_turn :
      (fuel : ℕ) (bytes : Bytes)
      → ((read_frame dumps loads crc32 bytes ≡ finished)
          → scan dumps loads crc32 (suc fuel) bytes ≡ some (nothing_read false))
        × ((read_frame dumps loads crc32 bytes ≡ torn)
            → scan dumps loads crc32 (suc fuel) bytes ≡ some (nothing_read true))
        × ((e : LogEntry) (n : ℕ) (rest : Bytes) (s : Scan)
            → read_frame dumps loads crc32 bytes ≡ frame e n rest
            → scan dumps loads crc32 fuel rest ≡ some s
            → scan dumps loads crc32 (suc fuel) bytes
              ≡ some (record {
                entries = e ∷ s.entries;
                valid_bytes = n + s.valid_bytes;
                truncated = s.truncated;
              }))
  unfolding scan
  scan_turn fuel bytes = (
    λ h. ap (λ x. after_turn x (scan dumps loads crc32 fuel)) h,
    λ h. ap (λ x. after_turn x (scan dumps loads crc32 fuel)) h,
    λ e n rest s h k.
        ap (λ x. after_turn x (scan dumps loads crc32 fuel)) h ∙ ap (λ x. add_entry e n x) k,
  )

  scan_stop :
      (fuel : ℕ) (rest : Bytes) (t : Bool)
      → Stops rest t
      → scan dumps loads crc32 (suc fuel) rest ≡ some (nothing_read t)
  unfolding read_frame
  scan_stop fuel rest t (inl (empty, clean)) =
      rw clean ((scan_turn fuel rest).0 (ap (read_frame dumps loads crc32) empty))
  scan_stop fuel rest t (inr (cut, dirty)) = rw dirty ((scan_turn fuel rest).1 cut)

  -- The loop reads such bytes back and stops behind them.
  pub scan-Holds :
      (fuel : ℕ) (good rest : Bytes) (es : List LogEntry) (t : Bool)
      → Holds good es
      → Stops rest t
      → length (good ++ rest) < fuel
      → scan dumps loads crc32 fuel (good ++ rest)
        ≡ some (record { entries = es; valid_bytes = length good; truncated = t })
  scan-Holds zero good rest es t h s enough = absurd (omega arith)
  scan-Holds (suc fuel) good rest [] t h s enough = rw h (scan_stop fuel rest t s)
  scan-Holds (suc fuel) good rest (e ∷ es) t (header, payload, more, split, f, h) s enough =
      let join : good ++ rest ≡ (header ++ payload) ++ (more ++ rest) =
        ap (λ b. b ++ rest) split ∙ append_assoc (header ++ payload) more rest in
      let less : length (more ++ rest) < fuel =
        omega (arith, ap length join, frame_size header payload (more ++ rest) e f, enough) in
      let size : length good ≡ length (header ++ payload) + length more =
        ap length split ∙ length-append (header ++ payload) more in
      rw (join, size)
        ((scan_turn fuel _).2 e _ _ _
          (read_frame-IsFrame dumps loads crc32 header payload (more ++ rest) e f)
          (scan-Holds fuel more rest es t h s less))

  -- What the loop does with any bytes: it takes the frames in front and stops behind them.
  pub record IsScan (bytes : Bytes) (s : Scan) : Type 0 where
    pub good : Bytes
    pub rest : Bytes
    pub split : bytes ≡ good ++ rest
    pub holds : Holds good s.entries
    pub size : s.valid_bytes ≡ length good
    pub stops : Stops rest s.truncated

  pub scan-IsScan :
      (fuel : ℕ) (bytes : Bytes)
      → length bytes < fuel
      → (s : Scan) × (scan dumps loads crc32 fuel bytes ≡ some s) × IsScan bytes s
  scan-IsScan zero bytes enough = absurd (omega arith)
  scan-IsScan (suc fuel) bytes enough =
      turn (scan-IsScan fuel) (read_frame dumps loads crc32 bytes) refl
    where
      turn :
          ((rest : Bytes)
            → length rest < fuel
            → (s : Scan) × (scan dumps loads crc32 fuel rest ≡ some s) × IsScan rest s)
          → (x : Turn) → read_frame dumps loads crc32 bytes ≡ x
          → (s : Scan) × (scan dumps loads crc32 (suc fuel) bytes ≡ some s) × IsScan bytes s
      turn next finished h = (
        nothing_read false,
        (scan_turn fuel bytes).0 h,
        record {
          good = [];
          rest = bytes;
          split = refl;
          holds = refl;
          size = refl;
          stops = inl (read_frame_finished dumps loads crc32 bytes h, refl);
        },
      )
      turn next torn h = (
        nothing_read true,
        (scan_turn fuel bytes).1 h,
        record {
          good = [];
          rest = bytes;
          split = refl;
          holds = refl;
          size = refl;
          stops = inr (h, refl);
        },
      )
      turn next (frame e n rest) h =
          let (header, payload, split, size, f) = frame-Accepted dumps loads crc32 bytes h in
          let (s, read, i) =
            next rest
              (omega (arith, ap length split, frame_size header payload rest e f, enough)) in
          (
            _,
            (scan_turn fuel bytes).2 e n rest s h read,
            record {
              good = (header ++ payload) ++ i.good;
              rest = i.rest;
              split =
                  split
                  ∙ ap (λ b. (header ++ payload) ++ b) i.split
                  ∙ sym (append_assoc (header ++ payload) i.good i.rest);
              holds = (header, payload, i.good, refl, f, i.holds);
              size = omega (arith, size, i.size, length-append (header ++ payload) i.good);
              stops = i.stops;
            },
          )
