-- ===== src/Schedule/Examples.antt =====
-- Tests of the interval resolver, and its theorem at concrete instants.
use aize.Prelude.{
  ℕ, String, ◌≡◌, refl, Option, none, some, [], ◌∷◌, arith, ◌==◌, string_Eq, nat_Eq, if◌then◌else◌,
}
use aize.Prelude.Int.{pos, negsuc}
use aize.Prelude.Text.{strip}
use aize.Schedule.{
  next_boundary, next_interval_boundary, resolved, refused, bad_interval, missing_completed,
}
use aize.Schedule.Boundary.{IsNext, next_boundary-IsNext}

abbrev clock : String → Option ℕ
clock s = if s == "noon" then some 0 else if s == "later" then some 9000000 else none

abbrev show : ℕ → String
show n = if n == 12 then "twelve" else "other"

third : next_boundary 0 9000000 4000000 ≡ some 12000000
unfolding next_boundary
third = refl

by_seconds :
    next_interval_boundary clock show
      (record { interval_seconds = pos 4; anchor = "" })
      (("scheduled_for", "noon") ∷ ("completed_at", " later ") ∷ [])
    ≡ resolved "twelve"
unfolding next_interval_boundary strip
by_seconds = refl

negative_interval :
    next_interval_boundary clock show (record { interval_seconds = negsuc 0; anchor = "" }) []
    ≡ refused bad_interval
unfolding next_interval_boundary
negative_interval = refl

unfinished :
    next_interval_boundary clock show
      (record { interval_seconds = pos 4; anchor = "" })
      (("scheduled_for", "noon") ∷ [])
    ≡ refused missing_completed
unfolding next_interval_boundary strip
unfinished = refl

next_boundary-IsNext_example :
    (b : ℕ) × (next_boundary 0 9000000 4000000 ≡ some b) × IsNext 0 9000000 4000000 b
next_boundary-IsNext_example = next_boundary-IsNext 0 9000000 4000000 (omega arith)
