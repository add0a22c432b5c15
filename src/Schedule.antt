-- ===== src/Schedule.antt =====
-- The interval resolver of src/goal/schedules.py. An instant is a number of microseconds; `parse_utc`
-- stands for `datetime.fromisoformat` in UTC (`none` where it raises) and `format_seconds` for the text
-- of a whole number of seconds. The year 9999, where a datetime ends, is out of reach.
pub mod Boundary
mod Examples
use aize.Prelude.{
  ℕ, zero, suc, ◌+◌, ◌-◌, ◌*◌, ◌/◌, String, Bool, Option, none, some, if◌then◌else◌, leb, truthy,
  Dict, get,
}
use aize.Prelude.Int.{ℤ, pos, negsuc}
use aize.Prelude.Text.{strip}

pub data ResolverError : Type 0 where
  bad_interval missing_anchor missing_completed invalid_timestamp out_of_fuel : ResolverError

pub data Resolved : Type 0 where
  resolved : String → Resolved
  refused : ResolverError → Resolved

-- `while candidate <= completed: candidate += interval`. `none` means that the fuel ran out.
unfoldable pub advance : ℕ → ℕ → ℕ → ℕ → Option ℕ
advance zero completed interval candidate = none
advance (suc fuel) completed interval candidate =
    let next = advance fuel completed interval (candidate + interval) in
    if leb candidate completed then next else some candidate

unfoldable pub next_boundary : ℕ → ℕ → ℕ → Option ℕ
unfolding advance
next_boundary anchor completed interval =
    advance (suc (suc (completed - anchor))) completed interval anchor

pub record UnitParameters : Type 0 where
  pub interval_seconds : ℤ
  pub anchor : String

abbrev anchor_name : UnitParameters → String
anchor_name p = strip (if truthy p.anchor then p.anchor else "scheduled_for")

-- `str(runtime_parameters.get(name) or "").strip()`
abbrev text_at : Dict String → String → String
text_at parameters name = elim (get parameters name) [ none ↦ "" | some s ↦ strip s ]

module _ (parse_utc : String → Option ℕ) (format_seconds : ℕ → String) where
  -- `_format_utc` drops the microseconds.
  abbrev format_utc : Option ℕ → Resolved
  format_utc none = refused out_of_fuel
  format_utc (some instant) = resolved (format_seconds (instant / 1000000))

  abbrev between : ℕ → Option ℕ → Option ℕ → Resolved
  between interval none completed = refused invalid_timestamp
  between interval (some anchor) none = refused invalid_timestamp
  between interval (some anchor) (some completed) =
      format_utc (next_boundary anchor completed (interval * 1000000))

  abbrev with_interval : ℕ → UnitParameters → Dict String → Resolved
  with_interval interval p parameters =
      if truthy (text_at parameters (anchor_name p))
      then if truthy (text_at parameters "completed_at")
        then between interval (parse_utc (text_at parameters (anchor_name p)))
            (parse_utc (text_at parameters "completed_at"))
        else refused missing_completed
      else refused missing_anchor

  abbrev pub by_interval : ℤ → UnitParameters → Dict String → Resolved
  by_interval (negsuc n) p parameters = refused bad_interval
  by_interval (pos zero) p parameters = refused bad_interval
  by_interval (pos (suc n)) p parameters = with_interval (suc n) p parameters

  unfoldable pub next_interval_boundary : UnitParameters → Dict String → Resolved
  unfolding next_boundary get strip
  next_interval_boundary p parameters = by_interval p.interval_seconds p parameters
