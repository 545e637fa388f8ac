-- ===== src/Host/Conductor/Safety.antt =====
-- The age of the last transmission, whatever device answers.
use auto_robotic_arms.Base.{ℕ, ◌+◌, ◌≡◌, ◌⊎◌}
use auto_robotic_arms.Python.{serial_error}
use auto_robotic_arms.Link.{Link}
use auto_robotic_arms.Host.Conductor.{Conductor, Outcome, raised}

module _ (link : Link) (clock : ℕ → ℕ) where
  -- The time of the last transmission is that of `s`, or the next reading of the clock.
  abbrev Stamps : {A : Type 0} → Conductor link → Outcome A × Conductor link → Type 0
  Stamps s (r, s') = (s'.last_tx_time ≡ s.last_tx_time) ⊎ (s'.last_tx_time ≡ clock s.clock_reads)

  abbrev Keeps : Conductor link → Conductor link → Type 0
  Keeps s t = (t.last_tx_time ≡ s.last_tx_time) × (t.clock_reads ≡ s.clock_reads)

  -- The frame goes out and its time is stamped, or the write raises and nothing else happens.
  abbrev Stamped : {A : Type 0} → Conductor link → Outcome A × Conductor link → Type 0
  Stamped s (r, s') =
      ((r ≡ raised serial_error) × (s' ≡ s))
      ⊎ ((s'.last_tx_time ≡ clock s.clock_reads) ⊎ (s'.last_tx_time ≡ clock (s.clock_reads + 1)))
