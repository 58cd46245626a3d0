-- ===== src/Simulator.antt =====
-- src/stakeroute/simulator: the agents' profiles (agents.py) and the generation of a world
-- (scenarios.py). `random.Random` is Python's; a generator is a state that each draw passes on.
pub mod World
pub mod Known
pub mod Stress
use stakeroute.Prelude.{
  ℕ, zero, suc, ◌+◌, ◌*◌, ◌/◌, ◌%◌, ◌==◌, Bool, true, false, List, [], ◌∷◌, ◌++◌, ℤ, pos, ◌+ℤ◌, ltb,
  eqb_ℤ, not, Text, codes, if◌then◌else◌,
}
use stakeroute.Float.{Float, one_f}
use stakeroute.Core.Types.{clamp_probability}

-- What is drawn from a `random.Random`, and the built-in `round`.
pub record Random (R F : Type 0) : Type 0 where
  pub choice : List Text → R → Text × R
  pub uniform : F → F → R → F × R
  pub randint : ℤ → ℤ → R → ℤ × R
  pub round : F → ℕ → F

-- `value` is the number in the payload, under "value", and `metric` the text.
pub record SignalSpec (F : Type 0) : Type 0 where
  pub source : Text
  pub source_event_id : Text
  pub observed_at_ms : ℤ
  pub metric : Text
  pub value : F

pub record HypothesisSpec (F : Type 0) : Type 0 where
  pub id : Text
  pub statement : Text
  pub prior_probability : F
  pub impact_minor_units : ℤ
  pub urgency : F
  pub review_cost : F
  pub deadline_ms : ℤ
  pub created_at_ms : ℤ
  pub ground_truth : ℤ

pub record ForecastSpec (F : Type 0) : Type 0 where
  pub hypothesis_id : Text
  pub agent_id : Text
  pub probability : F
  pub stake : ℤ
  pub evidence_cluster_id : Text
  pub source_event_id : Text

pub record AgentProfile (F : Type 0) : Type 0 where
  pub agent_id : Text
  pub display_name : Text
  pub accuracy : F
  pub starting_reputation : F
  pub malicious : Bool
  pub attested : Bool

-- Without the seed, which is the start of the generator.
pub record ScenarioWorld (F : Type 0) : Type 0 where
  pub signals : List (SignalSpec F)
  pub hypotheses : List (HypothesisSpec F)
  pub agents : List (AgentProfile F)
  pub forecasts : List (ForecastSpec F)

-- `str` of a natural number; its value bounds the number of its digits.
unfoldable pub digits : (fuel n : ℕ) → Text → Text
digits zero n acc = acc
digits (suc fuel) n acc =
    let rest = digits fuel (n / 10) ((48 + n % 10) ∷ acc) in
    if ltb n 10 then (48 + n) ∷ acc else rest

unfoldable pub show : ℕ → Text
show n = digits (suc n) n []

abbrev pub noise_sources : List Text
noise_sources =
    codes "logs" ∷ codes "metrics" ∷ codes "deploys" ∷ codes "security" ∷ codes "payments" ∷ []

module _ {F : Type 0} ⦃f : Float F⦄ where
  -- a profile with the defaults of the dataclass
  abbrev pub profile :
      (agent_id display_name : Text) (accuracy starting_reputation : F) → AgentProfile F
  profile agent_id display_name accuracy starting_reputation = record {
    agent_id = agent_id;
    display_name = display_name;
    accuracy = accuracy;
    starting_reputation = starting_reputation;
    malicious = false;
    attested = true;
  }

  abbrev pub noisy_agent : AgentProfile F
  noisy_agent =
      profile (codes "noisy-agent-1") (codes "Noisy Agent") (f.literal 55 2) (f.literal 40 2)

  abbrev pub new_agent : AgentProfile F
  new_agent = profile (codes "new-agent-1") (codes "New Agent") (f.literal 65 2) (f.literal 15 2)

  abbrev pub malicious_agent : AgentProfile F
  malicious_agent =
      record (profile (codes "malicious-agent-1") (codes "Malicious Agent") (f.literal 50 2)
        (f.literal 30 2)) { malicious = true }

  abbrev pub honest_profiles : List (AgentProfile F)
  honest_profiles =
      profile (codes "payment-agent-1") (codes "Payment Specialist") (f.literal 90 2)
        (f.literal 70 2)
      ∷ profile (codes "security-agent-1") (codes "Security Specialist") (f.literal 85 2)
          (f.literal 65 2)
      ∷ profile (codes "general-agent-1") (codes "General Agent") (f.literal 70 2) (f.literal 50 2)
      ∷ noisy_agent
      ∷ malicious_agent
      ∷ new_agent
      ∷ []

  -- `MINOR_HYPOTHESIS_PROFILES[i % 2]`
  abbrev pub minor_profile : ℕ → AgentProfile F
  minor_profile i = if i % 2 == 0 then noisy_agent else new_agent

  abbrev pub base_probability : (ground_truth : Bool) → AgentProfile F → F
  base_probability ground_truth p =
      if p.malicious
      then (if ground_truth then f.literal 10 2 else f.literal 90 2)
      else (if ground_truth then p.accuracy else f.minus one_f p.accuracy)
