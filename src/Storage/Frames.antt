-- ===== src/Storage/Frames.antt =====
-- What one turn of `_scan_segment` accepts.
use mathlib.Core.List.{append_assoc}
use aize.Prelude.{
  ℕ, ◌+◌, ◌-◌, ◌≤◌, ◌<◌, ◌≡◌, refl, ap, ◌∙◌, sym, subst, [], ◌∷◌, ◌++◌, arith, length,
  length-append, Bool, true, false, ◌||◌, not, Option, none, some, ◌==◌, nat_Eq, ltb, if◌then◌else◌,
  Bool-cases, beq→eq, beq_refl, ne→beq, inl, inr,
}
use aize.State.{LogEntry}
use aize.Storage.{
  Bytes, take, drop, magic_of, length_of, checksum_of, bytes_beq, frame_magic, max_frame_bytes,
  header_size, checksum, read_frame, read_payload, decoded, frame, torn, finished, Turn,
}
use aize.Storage.Bytes.{
  take-append, drop-append, take-drop, length-take, length-take_le, take_all, take-append_right,
}

module _ (dumps : LogEntry → Bytes) (loads : Bytes → Option LogEntry) (crc32 : Bytes → ℕ) where
  -- A header and a payload that hold one entry.
  pub record IsFrame (header payload : Bytes) (e : LogEntry) : Type 0 where
    pub size : length header ≡ header_size
    pub magic : bytes_beq (magic_of header) frame_magic ≡ true
    pub small : ltb max_frame_bytes (length_of header) ≡ false
    pub payload_size : length payload ≡ length_of header
    pub sum : (checksum dumps loads crc32 payload == checksum_of header) ≡ true
    pub loaded : loads payload ≡ some e

  -- The frame is read back, whatever follows it.
  pub read_frame-IsFrame :
      (header payload rest : Bytes) (e : LogEntry)
      → IsFrame header payload e
      → read_frame dumps loads crc32 ((header ++ payload) ++ rest)
        ≡ frame e (length (header ++ payload)) rest
  unfolding read_frame
  read_frame-IsFrame header payload rest e h =
      let split : (header ++ payload) ++ rest ≡ header ++ (payload ++ rest) =
        append_assoc header payload rest in
      let at_header : take header_size (header ++ (payload ++ rest)) ≡ header =
        subst (λ n. take n (header ++ (payload ++ rest)) ≡ header) h.size
          (take-append header (payload ++ rest)) in
      let behind : drop header_size (header ++ (payload ++ rest)) ≡ payload ++ rest =
        subst (λ n. drop n (header ++ (payload ++ rest)) ≡ payload ++ rest) h.size
          (drop-append header (payload ++ rest)) in
      let at_payload : take (length_of header) (payload ++ rest) ≡ payload =
        subst (λ n. take n (payload ++ rest) ≡ payload) h.payload_size (take-append payload rest) in
      let after : drop (length_of header) (payload ++ rest) ≡ rest =
        subst (λ n. drop n (payload ++ rest) ≡ rest) h.payload_size (drop-append payload rest) in
      let whole : length (header ++ payload) ≡ header_size + length_of header =
        omega (arith, length-append header payload, h.size, h.payload_size) in
      rw
        (
          split,
          at_header,
          behind,
          h.size,
          h.magic,
          h.small,
          at_payload,
          after,
          whole,
          h.payload_size,
          beq_refl (length_of header),
          h.sum,
          h.loaded,
        )
        refl

  -- A frame that one turn accepts: where it stands in the file.
  abbrev pub Accepted : Bytes → LogEntry → ℕ → Bytes → Type 0
  Accepted bytes e n rest =
      (header : Bytes) × (payload : Bytes) × (bytes ≡ (header ++ payload) ++ rest)
      × (n ≡ length (header ++ payload))
      × IsFrame header payload e

  not-false : (b : Bool) → not b ≡ false → b ≡ true
  not-false b h = ground arith

  decoded_frame :
      (o : Option LogEntry) {n m : ℕ} {rest rest' : Bytes} {e : LogEntry}
      → decoded dumps loads crc32 o n rest ≡ frame e m rest'
      → (o ≡ some e) × (n ≡ m) × (rest ≡ rest')
  decoded_frame none h = cc
  decoded_frame (some d) h = (cc, cc, cc)

  payload-Accepted :
      (header rest : Bytes) {e : LogEntry} {n : ℕ} {rest' : Bytes}
      → length header ≡ header_size
      → bytes_beq (magic_of header) frame_magic ≡ true
      → ltb max_frame_bytes (length_of header) ≡ false
      → read_payload dumps loads crc32 header rest ≡ frame e n rest'
      → Accepted (header ++ rest) e n rest'
  payload-Accepted header rest {e} {n} {rest'} size magic small h =
      elim (Bool-cases (not (length (take (length_of header) rest) == length_of header))) [
        | inl t ↦ cc (rw t at h)
        | inr long ↦
            elim (Bool-cases (
              not (
                checksum dumps loads crc32 (take (length_of header) rest) == checksum_of header))) [
                  | inl t ↦ cc (rw (long, t) at h)
                  | inr sum ↦
                      let (loaded, same, after) =
                        decoded_frame (loads (take (length_of header) rest))
                          (rw (long, sum) at h) in
                      let exact =
                        beq→eq (length (take (length_of header) rest)) (length_of header)
                          (not-false _ long) in
                      (
                        header,
                        take (length_of header) rest,
                        sym (
                            append_assoc header (take (length_of header) rest) rest'
                            ∙ ap (λ l. header ++ l)
                                (ap (λ l. take (length_of header) rest ++ l) (sym after)
                                  ∙ take-drop (length_of header) rest)),
                        omega (
                          arith,
                          same,
                          exact,
                          size,
                          length-append header (take (length_of header) rest),
                        ),
                        record {
                          size = size;
                          magic = magic;
                          small = small;
                          payload_size = exact;
                          sum = not-false _ sum;
                          loaded = loaded;
                        },
                      )
                ]
      ]

  pub frame-Accepted :
      (bytes : Bytes) {e : LogEntry} {n : ℕ} {rest : Bytes}
      → read_frame dumps loads crc32 bytes ≡ frame e n rest
      → Accepted bytes e n rest
  unfolding read_frame
  frame-Accepted bytes {e} {n} {rest} h = elim (Bool-cases (length (take header_size bytes) == 0)) [
    | inl t ↦ cc (rw t at h)
    | inr some_bytes ↦ elim (Bool-cases (not (length (take header_size bytes) == header_size))) [
      | inl t ↦ cc (rw (some_bytes, t) at h)
      | inr size ↦
          elim (Bool-cases (not (bytes_beq (magic_of (take header_size bytes)) frame_magic))) [
            | inl t ↦ cc (rw (some_bytes, size, t) at h)
            | inr magic ↦
                elim (Bool-cases (ltb max_frame_bytes (length_of (take header_size bytes)))) [
                  | inl t ↦ cc (rw (some_bytes, size, magic, t) at h)
                  | inr small ↦
                      subst (λ b. Accepted b e n rest) (take-drop header_size bytes)
                        (payload-Accepted (take header_size bytes) (drop header_size bytes)
                          (beq→eq (length (take header_size bytes)) header_size (not-false _ size))
                          (not-false _ magic) small (rw (some_bytes, size, magic, small) at h))
                ]
          ]
    ]
  ]

  short_torn :
      (bytes : Bytes)
      → 0 < length bytes
      → length bytes < header_size
      → read_frame dumps loads crc32 bytes ≡ torn
  unfolding read_frame
  short_torn bytes lo hi =
      rw
        (
          take_all header_size bytes (omega arith),
          ne→beq (length bytes) 0 (omega arith),
          ne→beq (length bytes) header_size (omega arith),
        )
        refl

  cut_torn :
      (header part : Bytes)
      → length header ≡ header_size
      → bytes_beq (magic_of header) frame_magic ≡ true
      → ltb max_frame_bytes (length_of header) ≡ false
      → length part < length_of header
      → read_frame dumps loads crc32 (header ++ part) ≡ torn
  unfolding read_frame
  cut_torn header part size magic small less =
      let at_header : take header_size (header ++ part) ≡ header =
        subst (λ n. take n (header ++ part) ≡ header) size (take-append header part) in
      let behind : drop header_size (header ++ part) ≡ part =
        subst (λ n. drop n (header ++ part) ≡ part) size (drop-append header part) in
      rw
        (
          at_header,
          behind,
          size,
          magic,
          small,
          take_all (length_of header) part (omega arith),
          ne→beq (length part) (length_of header) (omega arith),
        )
        refl

  -- A proper part of a frame is torn, unless it is empty.
  pub read_frame_torn :
      (header payload : Bytes) (e : LogEntry) (k : ℕ)
      → IsFrame header payload e
      → 0 < k
      → k < length (header ++ payload)
      → read_frame dumps loads crc32 (take k (header ++ payload)) ≡ torn
  read_frame_torn header payload e k h lo hi =
      let exact = length-take k (header ++ payload) (omega arith) in
      elim (Bool-cases (ltb k header_size)) [
        | inl t ↦
            short_torn (take k (header ++ payload)) (omega (arith, exact))
              (ground (arith, exact, t))
        | inr f ↦
            let past : header_size ≤ k = ground (arith, f) in
            let cut : k ≡ length header + (k - header_size) = omega (arith, past, h.size) in
            subst (λ b. read_frame dumps loads crc32 b ≡ torn)
              (sym (take-append_right k (k - header_size) header payload cut))
              (cut_torn header (take (k - header_size) payload) h.size h.magic h.small (
                omega (
                  arith,
                  length-take_le (k - header_size) payload,
                  h.payload_size,
                  h.size,
                  length-append header payload,
                  past,
                )))
      ]

  no_end : (c : Bool) (x : Turn) → ¬ (x ≡ finished) → ¬ ((if c then torn else x) ≡ finished)
  no_end true x n h = cc
  no_end false x n h = n h

  decoded_no_end :
      (o : Option LogEntry) (n : ℕ) (rest : Bytes)
      → ¬ (decoded dumps loads crc32 o n rest ≡ finished)
  decoded_no_end none n rest h = cc
  decoded_no_end (some e) n rest h = cc

  nonempty : (b : ℕ) (bytes : Bytes) → ¬ (length (take header_size (b ∷ bytes)) ≡ 0)
  nonempty b bytes e = omega arith

  -- The loop ends without a torn frame at the end of the file only.
  pub read_frame_finished :
      (bytes : Bytes) → read_frame dumps loads crc32 bytes ≡ finished → bytes ≡ []
  unfolding read_frame
  read_frame_finished [] h = refl
  read_frame_finished (b ∷ bytes) h =
      elim (Bool-cases (length (take header_size (b ∷ bytes)) == 0)) [
        | inl t ↦ absurd (nonempty b bytes (beq→eq (length (take header_size (b ∷ bytes))) 0 t))
        | inr some_bytes ↦
            let header = take header_size (b ∷ bytes) in
            let rest = drop header_size (b ∷ bytes) in
            let payload = take (length_of header) rest in
            absurd (
              no_end (not (length header == header_size))
                (if not (bytes_beq (magic_of header) frame_magic)
                    || ltb max_frame_bytes (length_of header)
                  then torn
                  else read_payload dumps loads crc32 header rest)
                (no_end
                  (not (bytes_beq (magic_of header) frame_magic)
                    || ltb max_frame_bytes (length_of header))
                  (read_payload dumps loads crc32 header rest)
                  (no_end
                    (not (length payload == length_of header)
                      || not (checksum dumps loads crc32 payload == checksum_of header))
                    (decoded dumps loads crc32 (loads payload) (header_size + length_of header)
                      (drop (length_of header) rest))
                    (decoded_no_end (loads payload) (header_size + length_of header)
                      (drop (length_of header) rest))))
                (rw some_bytes at h))
      ]
