-- ===== src/Tests/Simulator.antt =====
-- A generated world, with a generator that always draws the least number.
use stakeroute.Prelude.{ℕ, ◌≡◌, refl, All, codes, pos, arith, length}
use stakeroute.Float.Fixed.{Fixed, fixed_float}
use stakeroute.Simulator.{Random, ScenarioWorld, show, digits}
use stakeroute.Simulator.World.{
  noise_signals, contender_forecasts, profile_forecasts, minor_hypotheses, minor_forecasts,
  generate_world,
}
use stakeroute.Simulator.Known.{IsRanged, IsKnown, generate_world-IsKnown}

abbrev least : Random ℕ Fixed
least = record {
  choice = λ texts r. (codes "logs", r);
  uniform = λ a b r. (a, r);
  randint = λ a b r. (a, r);
  round = λ x places. x;
}

least-IsRanged : IsRanged least
least-IsRanged = record { low = λ a b r h. omega arith; high = λ a b r h. h }

abbrev world : ScenarioWorld Fixed
world = generate_world least 0 2 3 (pos 1000)

generate_world-IsKnown_example : All (IsKnown world.hypotheses world.agents) world.forecasts
generate_world-IsKnown_example = generate_world-IsKnown least 0 2 3 (pos 1000) least-IsRanged

-- Six agents on two hypotheses, and one on each of the three minor ones.
generate_world_test : length world.forecasts ≡ 15
unfolding generate_world noise_signals profile_forecasts contender_forecasts minor_hypotheses
    minor_forecasts
generate_world_test = refl

show_test : show 120 ≡ codes "120"
unfolding show digits
show_test = refl
