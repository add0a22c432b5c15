-- ===== src/Policy/Score.antt =====
-- Aging: what waiting adds to a score.
use aize.Prelude.{ℕ, ◌/◌, ◌≤◌, min, String, Option, arith}
use aize.Prelude.Int.{ℤ, pos, ◌+ℤ◌, ◌≤ℤ◌, int_laws}
use aize.State.{Session}
use aize.Policy.{scheduling_score, waiting_time, aging_score_limit}

module _ (from_iso : String → Option ℕ) where
  waiting_time_mono :
      (value : String) (now later : ℕ)
      → now ≤ later
      → waiting_time from_iso value now ≤ waiting_time from_iso value later
  unfolding waiting_time
  waiting_time_mono value now later h = ground arith

  age_steps : (a b : ℕ) → a ≤ b → min 100 (a / 60000000) ≤ min 100 (b / 60000000)
  age_steps a b h = omega arith

  sum_mono : (x y z : ℤ) (a b : ℕ) → a ≤ b → x +ℤ y +ℤ z +ℤ pos a ≤ℤ x +ℤ y +ℤ z +ℤ pos b
  sum_mono x y z a b h = omega int_laws

  capped : (a : ℕ) → min 100 (a / 60000000) ≤ 100
  capped a = omega arith

  sum_capped :
      (x y z : ℤ) (a b : ℕ) → b ≤ 100 → x +ℤ y +ℤ z +ℤ pos b ≤ℤ x +ℤ y +ℤ z +ℤ pos a +ℤ pos 100
  sum_capped x y z a b h = omega int_laws

  -- While an entry waits its score never falls, and waiting adds 100 at most: the score of a Session
  -- at a later time is at least the score now, and at most the score now and 100.
  pub scheduling_score_aging :
      (session : Session) (role first_ready_at : String) (now later : ℕ)
      → now ≤ later
      → ((scheduling_score from_iso session role first_ready_at now).0
          ≤ℤ (scheduling_score from_iso session role first_ready_at later).0)
        × ((scheduling_score from_iso session role first_ready_at later).0
            ≤ℤ (scheduling_score from_iso session role first_ready_at now).0
              +ℤ pos aging_score_limit)
  unfolding scheduling_score
  scheduling_score_aging session role first_ready_at now later h = (
    sum_mono _ _ _ _ _ (age_steps _ _ (waiting_time_mono first_ready_at now later h)),
    sum_capped _ _ _ _ _ (capped _),
  )
