-- ===== src/LogIndex/Numbered.antt =====
-- What an index that is built says of the entries.
use mathlib.Core.Option.{some-injective}
use aize.Prelude.{
  ℕ, suc, ◌+◌, ◌-◌, String, ◌≡◌, refl, ap, ◌∙◌, sym, subst, inl, inr, Bool, true, false, ◌&&◌, not,
  none, some, List, [], ◌∷◌, ◌++◌, arith, ◌==◌, nat_Eq, string_Eq, if◌then◌else◌, length,
  length-append, Bool-cases, Option-cases, beq→eq, beq_refl,
}
use aize.State.{LogEntry}
use aize.Storage.{Scan}
use aize.LogIndex.{
  Index, validate_sequence, build_from, build_session_log_index, add_segment, or_start,
}

-- Entries of one Session with the numbers n, n + 1, ...
abbrev pub Numbered : String → ℕ → List LogEntry → Type 0
Numbered sid n [] = Unit
Numbered sid n (e ∷ es) = (e.session_id ≡ sid) × (e.seq ≡ n) × Numbered sid (suc n) es

abbrev pub all_entries : List (String × Scan) → List LogEntry
all_entries [] = []
all_entries ((path, scan) ∷ segments) = scan.entries ++ all_entries segments

Numbered-append :
    (sid : String) (n m : ℕ) (xs ys : List LogEntry)
    → m ≡ n + length xs
    → Numbered sid n xs
    → Numbered sid m ys
    → Numbered sid n (xs ++ ys)
Numbered-append sid n m [] ys e h k = subst (λ x. Numbered sid x ys) (omega (arith, e)) k
Numbered-append sid n m (x ∷ xs) ys e h k =
    (h.0, h.1, Numbered-append sid (suc n) m xs ys (omega (arith, e)) h.2 k)

validate_sequence-Numbered :
    (sid : String) (n : ℕ) (es : List LogEntry) {next : ℕ}
    → validate_sequence sid n es ≡ some next
    → Numbered sid n es × (next ≡ n + length es)
unfolding validate_sequence
validate_sequence-Numbered sid n [] h = (tt, let same = some-injective _ _ h in omega (arith, same))
validate_sequence-Numbered sid n (e ∷ es) h = elim (Bool-cases (e.session_id == sid)) [
  | inr f ↦ cc (rw f at h)
  | inl s ↦ elim (Bool-cases (e.seq == n)) [
    | inr f ↦ cc (rw (s, f) at h)
    | inl q ↦
        let (rest, size) = validate_sequence-Numbered sid (suc n) es (rw (s, q) at h) in
        ((beq→eq e.session_id sid s, beq→eq e.seq n q, rest), omega (arith, size))
  ]
]

build_from-Numbered :
    (sid : String) (recover : Bool) (n : ℕ) (segments : List (String × Scan)) {last : ℕ}
    {index : Index}
    → build_from sid recover n segments ≡ some (last, index)
    → Numbered sid n (all_entries segments)
      × (last ≡ n + length (all_entries segments))
      × (index.latest_seq ≡ last - 1)
      × (index.record_count ≡ length (all_entries segments))
unfolding build_from
build_from-Numbered sid recover n [] h =
    let same = some-injective _ _ h in
    (
      tt,
      omega (arith, ap (λ p. p.0) same),
      sym (ap (λ p. p.1.latest_seq) same) ∙ ap (λ p. p.0 - 1) same,
      sym (ap (λ p. p.1.record_count) same),
    )
build_from-Numbered sid recover n ((path, scan) ∷ segments) h =
    elim (Bool-cases (scan.truncated && not recover)) [
      | inl t ↦ cc (rw t at h)
      | inr f ↦ elim (Option-cases (validate_sequence sid n scan.entries)) [
        | inl bad ↦ cc (
          ap (λ o. add_segment path scan n o (build_from sid recover (or_start n o) segments)) bad,
          rw f at h,
        )
        | inr (next, good) ↦
            let h' =
              sym (
                ap (λ o. add_segment path scan n o (build_from sid recover (or_start n o) segments))
                  good)
              ∙ (rw f at h) in
            elim (Option-cases (build_from sid recover next segments)) [
              | inl bad ↦ cc (bad, h')
              | inr ((last, index), rest) ↦
                  let same =
                    some-injective _ _ (sym (ap (add_segment path scan n (some next)) rest) ∙ h') in
                  let (numbered, size) = validate_sequence-Numbered sid n scan.entries good in
                  let (more, ends, latest, records) =
                    build_from-Numbered sid recover next segments rest in
                  let long = length-append scan.entries (all_entries segments) in
                  (
                    Numbered-append sid n next scan.entries (all_entries segments) size numbered
                        more,
                    omega (arith, sym (ap (λ p. p.0) same), ends, size, long),
                    sym (ap (λ p. p.1.latest_seq) same) ∙ latest ∙ ap (λ p. p.0 - 1) same,
                    sym (ap (λ p. p.1.record_count) same) ∙ omega (arith, records, long),
                  )
            ]
      ]
    ]

Numbered-split :
    (sid : String) (n : ℕ) (xs ys : List LogEntry)
    → Numbered sid n (xs ++ ys)
    → Numbered sid n xs × Numbered sid (n + length xs) ys
Numbered-split sid n [] ys h = (tt, subst (λ x. Numbered sid x ys) (omega arith) h)
Numbered-split sid n (x ∷ xs) ys h =
    let (front, back) = Numbered-split sid (suc n) xs ys h.2 in
    ((h.0, h.1, front), subst (λ k. Numbered sid k ys) (omega arith) back)

validate_sequence_total :
    (sid : String) (n : ℕ) (es : List LogEntry)
    → Numbered sid n es
    → validate_sequence sid n es ≡ some (n + length es)
unfolding validate_sequence
validate_sequence_total sid n [] h = ap some (omega arith)
validate_sequence_total sid n (e ∷ es) h =
    let s : (e.session_id == sid) ≡ true = rw h.0 (beq_refl sid) in
    let q : (e.seq == n) ≡ true = rw h.1 (beq_refl n) in
    rw (s, q) (validate_sequence_total sid (suc n) es h.2 ∙ ap some (omega arith))

build_from_total :
    (sid : String) (n : ℕ) (segments : List (String × Scan))
    → Numbered sid n (all_entries segments)
    → (last : ℕ) × (index : Index) × (build_from sid true n segments ≡ some (last, index))
unfolding build_from
build_from_total sid n [] h = (_, _, refl)
build_from_total sid n ((path, scan) ∷ segments) h =
    let (front, back) = Numbered-split sid n scan.entries (all_entries segments) h in
    let (last, index, built) = build_from_total sid (n + length scan.entries) segments back in
    let kept : (scan.truncated && not true) ≡ false = ground arith in
    (
      _,
      _,
      ap
            (λ b.
              if b
              then none
              else add_segment path scan n (validate_sequence sid n scan.entries) (
                  build_from sid true (or_start n (validate_sequence sid n scan.entries)) segments))
            kept
          ∙ ap (λ o. add_segment path scan n o (build_from sid true (or_start n o) segments))
              (validate_sequence_total sid n scan.entries front)
          ∙ ap (add_segment path scan n (some (n + length scan.entries))) built,
    )

-- With recovery an index is built exactly of the SessionLogs whose entries, segment by segment, belong
-- to the Session and have the numbers 1, 2, 3, ... without a gap; else StoreError is raised. The latest
-- number and the record count of the index are the number of these entries.
pub build_session_log_index-Numbered :
    (sid : String) (segments : List (String × Scan))
    → (Numbered sid 1 (all_entries segments)
        → (last : ℕ) × (index : Index) × (build_session_log_index sid true segments
            ≡ some (last, index)))
      × ((last : ℕ) (index : Index)
          → build_session_log_index sid true segments ≡ some (last, index)
          → Numbered sid 1 (all_entries segments)
            × (index.latest_seq ≡ length (all_entries segments))
            × (index.record_count ≡ length (all_entries segments)))
unfolding build_session_log_index
build_session_log_index-Numbered sid segments = (
  build_from_total sid 1 segments,
  λ last index h.
      let (numbered, ends, latest, records) = build_from-Numbered sid true 1 segments h in
      (numbered, omega (arith, latest, ends), records),
)
