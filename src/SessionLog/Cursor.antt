-- ===== src/SessionLog/Cursor.antt =====
-- Numbers of a SessionLog, and the cursors of the roles.
use aize.Prelude.{
  ℕ, suc, ◌≤◌, ◌<◌, max, String, ◌≡◌, refl, ap, ◌∙◌, sym, subst, ◌⊎◌, inl, inr, Bool, true, false,
  none, some, List, [], ◌∷◌, ◌++◌, arith, ◌==◌, string_Eq, if◌then◌else◌, Dict, get, put, get-put,
  eq_refl, Option-cases, beq→eq, Bool-cases, ltb, keep_if, ne→beq, ◌≢◌,
}
use aize.State.{LogEntry, Session, goal_manager_role, worker_agent_role}
use aize.SessionLog.{
  Logs, log_of, entries_of, number_of, or_zero, default_cursor, ensure_role_cursors, raise_cursor,
  with_session, last_seq, next_seq, is_logged, append_entry, append_session_log_entry,
  session_log_after_cursor, latest_session_log_seq, cursor_of, set_role_cursor,
}

-- Numbers that rise from entry to entry, the first above `n`.
abbrev pub Rising : ℕ → List LogEntry → Type 0
Rising n [] = Unit
Rising n (e ∷ es) = (n < e.seq) × Rising e.seq es

pub Rising-last :
    (n : ℕ) (d : LogEntry) (es : List LogEntry) → Rising n (d ∷ es) → n < last_seq (d ∷ es)
unfolding last_seq
Rising-last n d [] r = r.0
Rising-last n d (f ∷ es) r = omega (arith, r.0, Rising-last d.seq f es r.1)

Rising-snoc :
    (n : ℕ) (es : List LogEntry) (e : LogEntry)
    → Rising n es
    → n < e.seq
    → last_seq es < e.seq
    → Rising n (es ++ e ∷ [])
unfolding last_seq
Rising-snoc n [] e r h k = (h, tt)
Rising-snoc n (d ∷ []) e r h k = (r.0, (k, tt))
Rising-snoc n (d ∷ f ∷ es) e r h k =
    (r.0, Rising-snoc d.seq (f ∷ es) e r.1 (omega (arith, k, Rising-last d.seq f es r.1)) k)

last_seq-snoc : (es : List LogEntry) (e : LogEntry) → last_seq (es ++ e ∷ []) ≡ e.seq
unfolding last_seq
last_seq-snoc [] e = refl
last_seq-snoc (d ∷ []) e = refl
last_seq-snoc (d ∷ f ∷ es) e = last_seq-snoc (f ∷ es) e

-- A reader behind the last entry sees the new one only.
unread :
    (n c : ℕ) (es : List LogEntry) (e : LogEntry)
    → Rising n es
    → last_seq es ≤ c
    → c < e.seq
    → keep_if (λ (x : LogEntry). ltb c x.seq) (es ++ e ∷ []) ≡ e ∷ []
unfolding keep_if last_seq
unread n c [] e r h k = let t : ltb c e.seq ≡ true = ground arith in rw t refl
unread n c (d ∷ []) e r h k =
    let f : ltb c d.seq ≡ false = ground (arith, h) in
    let t : ltb c e.seq ≡ true = ground (arith, k) in rw (f, t) refl
unread n c (d ∷ g ∷ es) e r h k =
    let f : ltb c d.seq ≡ false = ground (arith, h, Rising-last d.seq g es r.1) in
    rw f (unread d.seq c (g ∷ es) e r.1 h k)

module _ (persisted : String → ℕ) where
  -- What an append does to the logs.
  pub record IsAppend (logs : Logs) (sid : String) (after : Logs) : Type 0 where
    -- The numbers of the Session still rise, and no other Session's log changes.
    pub rising : Rising 0 (log_of after sid)
    pub others : (t : String) → t ≢ sid → log_of after t ≡ log_of logs t
    -- Nothing is added, or one entry with the next number after all that were given out in memory or
    -- on disk, which a reader that has read everything then reads, and nothing else.
    pub added :
        (log_of after sid ≡ log_of logs sid)
        ⊎ ((e : LogEntry) × (log_of after sid ≡ log_of logs sid ++ e ∷ [])
            × (e.seq ≡ suc (latest_session_log_seq persisted logs sid))
            × (session_log_after_cursor after sid (latest_session_log_seq persisted logs sid)
                ≡ e ∷ []))

  log_of-put : (logs : Logs) (sid : String) (es : List LogEntry) → log_of (put logs sid es) sid ≡ es
  log_of-put logs sid es =
      ap entries_of
        (get-put logs sid es sid ∙ ap (λ b. if b then some es else get logs sid) (eq_refl sid))

  log_of-put_other :
      (logs : Logs) (sid : String) (es : List LogEntry) (t : String)
      → t ≢ sid
      → log_of (put logs sid es) t ≡ log_of logs t
  log_of-put_other logs sid es t other = ap entries_of (
      get-put logs sid es t
      ∙ ap (λ b. if b then some es else get logs t) (ne→beq sid t (λ same. other (sym same))))

  keeps :
      (logs : Logs) (sid : String) (new : LogEntry)
      → is_logged new (log_of logs sid) ≡ true
      → append_entry persisted sid new (log_of logs sid) ≡ log_of logs sid
  unfolding append_entry
  keeps logs sid new t = rw t refl

  adds :
      (logs : Logs) (sid : String) (new : LogEntry)
      → is_logged new (log_of logs sid) ≡ false
      → append_entry persisted sid new (log_of logs sid)
        ≡ log_of logs sid
          ++ record new { seq = next_seq (persisted sid) (log_of logs sid); session_id = sid } ∷ []
  unfolding append_entry
  adds logs sid new f = rw f refl

  -- An append keeps the numbers of a SessionLog rising and leaves the other Sessions alone; it adds
  -- nothing, or the one entry that a reader who had read everything finds unread.
  pub append_session_log_entry-IsAppend :
      (logs : Logs) (sid : String) (new : LogEntry)
      → Rising 0 (log_of logs sid)
      → IsAppend logs sid (append_session_log_entry persisted logs sid new)
  unfolding append_session_log_entry session_log_after_cursor latest_session_log_seq
  append_session_log_entry-IsAppend logs sid new r =
      elim (Bool-cases (is_logged new (log_of logs sid))) [
        | inl t ↦
            let same =
              log_of-put logs sid (append_entry persisted sid new (log_of logs sid))
              ∙ keeps logs sid new t in
            record {
              rising = subst (Rising 0) (sym same) r;
              others = log_of-put_other logs sid _;
              added = inl same;
            }
        | inr f ↦
            let put_back =
              log_of-put logs sid (append_entry persisted sid new (log_of logs sid))
              ∙ adds logs sid new f in
            record {
              rising =
                  subst (Rising 0) (sym put_back)
                    (Rising-snoc 0 (log_of logs sid) _ r (omega arith) (omega arith));
              others = log_of-put_other logs sid _;
              added = inr (
                _,
                put_back,
                refl,
                ap
                      (keep_if (λ (x : LogEntry).
                        ltb (max (persisted sid) (last_seq (log_of logs sid))) x.seq))
                      put_back
                    ∙ unread 0 _ (log_of logs sid) _ r (omega arith) (omega arith),
              );
            }
      ]

cursor_put :
    (cursors : Dict ℕ) (key other : String) (n : ℕ)
    → number_of (get (put cursors key n) other)
      ≡ (if key == other then n else number_of (get cursors other))
cursor_put cursors key other n = ap number_of (get-put cursors key n other) ∙ push (key == other)
  where
    push :
        (b : Bool)
        → number_of (if b then some n else get cursors other)
          ≡ (if b then n else number_of (get cursors other))
    push true = refl
    push false = refl

-- A missing cursor counts as 0, so that writing 0 there changes no cursor.
default_same :
    (role : String) (cursors : Dict ℕ) (key : String)
    → number_of (get (default_cursor role cursors) key) ≡ number_of (get cursors key)
default_same role cursors key = elim (Option-cases (get cursors role)) [
  | inr (n, there) ↦ ap (λ o. number_of (get (or_zero role cursors o) key)) there
  | inl absent ↦
      ap (λ o. number_of (get (or_zero role cursors o) key)) absent
      ∙ cursor_put cursors role key 0
      ∙ zero_there absent
]
  where
    zero_there :
        get cursors role ≡ none
        → (if role == key then 0 else number_of (get cursors key)) ≡ number_of (get cursors key)
    zero_there absent = elim (Bool-cases (role == key)) [
      | inl t ↦ rw t (sym (ap number_of (ap (get cursors) (sym (beq→eq role key t)) ∙ absent)))
      | inr f ↦ rw f refl
    ]

-- `_set_role_cursor` raises one role's cursor of one Session to the larger of its value and the given
-- number, so that it never falls; the other roles' cursors and the other Sessions stay as they were.
pub set_role_cursor_raises :
    (sessions : Dict Session) (sid role : String) (seq : ℕ) {s : Session}
    → get sessions sid ≡ some s
    → ((t : String) → t ≢ sid → get (set_role_cursor sessions sid role seq) t ≡ get sessions t)
      × ((s' : Session) × (get (set_role_cursor sessions sid role seq) sid ≡ some s')
          × (cursor_of s' role ≡ max (cursor_of s role) seq)
          × ((key : String) → key ≢ role → cursor_of s' key ≡ cursor_of s key))
unfolding set_role_cursor
set_role_cursor_raises sessions sid role seq {s} there = (
  λ t other.
      got t
      ∙ ap (λ b. if b then some raised else get sessions t) (ne→beq sid t (λ e. other (sym e))),
  (
    raised,
    got sid ∙ ap (λ b. if b then some raised else get sessions sid) (eq_refl sid),
    cursor_put (ensure_role_cursors s).role_cursors role role _
        ∙ ap
            (λ b.
              if b
              then max (cursor_of (ensure_role_cursors s) role) seq
              else cursor_of (ensure_role_cursors s) role)
            (eq_refl role)
        ∙ ap (λ n. max n seq) (same role),
    λ key other.
        cursor_put (ensure_role_cursors s).role_cursors role key _
        ∙ ap
            (λ b.
              if b
              then max (cursor_of (ensure_role_cursors s) role) seq
              else cursor_of (ensure_role_cursors s) key)
            (ne→beq role key (λ e. other (sym e)))
        ∙ same key,
  ),
)
  where
    raised : Session
    raised = raise_cursor role seq (ensure_role_cursors s)

    got :
        (t : String)
        → get (with_session sessions sid role seq (get sessions sid)) t
          ≡ (if sid == t then some raised else get sessions t)
    got t =
        ap (λ o. get (with_session sessions sid role seq o) t) there ∙ get-put sessions sid raised t

    same : (key : String) → cursor_of (ensure_role_cursors s) key ≡ cursor_of s key
    same key =
        default_same worker_agent_role (default_cursor goal_manager_role s.role_cursors) key
        ∙ default_same goal_manager_role s.role_cursors key
