-- ===== src/Power/Throttled/Alarm.antt =====
-- Only the undervoltage of now is an alarm.
use oqlos.Base.{
  ℕ, ◌%◌, String, ◌≡◌, refl, sym, ap, ◌∙◌, inl, inr, Bool, false, Option, none, some, List, [], ◌∷◌,
  arith, ◌==◌, nat_eq, Bool-cases, get_or,
}
use mathlib.Core.Path.{subst}
use oqlos.Power.{has_active_undervoltage}
use oqlos.Power.Sampling.{snapshot_of}
use oqlos.Power.Throttled.{
  Decoded, has_bit, flags, error_codes, status_of, warnings_of, decoded, decode_throttled, Warning,
}

-- Whether a number, if there is one, tells an undervoltage now.
abbrev pub undervoltage_now : Option ℕ → Bool
undervoltage_now none = false
undervoltage_now (some mask) = nat_eq (mask % 2) 1

-- A snapshot that is an alarm where, and only where, `alarm` holds
abbrev pub IsAlarmed : Bool → Decoded → Type 0
IsAlarmed alarm d =
    (has_active_undervoltage (snapshot_of d.reading) ≡ alarm)
    × ((d.reading.power.status == "critical") ≡ alarm)

status_of-calm : (warnings : List Warning) → (status_of [] warnings == "critical") ≡ false
status_of-calm [] = refl
status_of-calm (w ∷ ws) = refl

lowest_bit : (mask : ℕ) → has_bit mask 0 ≡ nat_eq (mask % 2) 1
unfolding has_bit
lowest_bit mask = ap (λ n. nat_eq (n % 2) 1) (omega arith)

error_codes-calm : (mask : ℕ) → has_bit mask 0 ≡ false → error_codes (flags mask 0) ≡ []
unfolding flags
error_codes-calm mask calm = ground (arith, calm)

-- A snapshot tells an alarm by the first flag.
decoded-flag :
    (hex : ℕ → String) (raw : Option String) (at : String) (mask : ℕ)
    → IsAlarmed (has_bit mask 0) (decoded hex raw at (some mask))
unfolding decoded has_active_undervoltage snapshot_of flags
decoded-flag hex raw at mask = elim (Bool-cases (has_bit mask 0)) [
  | inl low ↦ rw low (refl, refl)
  | inr calm ↦ (
    ground (arith, calm),
    ap (λ codes. status_of codes (warnings_of (flags mask 0) (flags mask 16)) == "critical")
          (error_codes-calm mask calm)
        ∙ status_of-calm (warnings_of (flags mask 0) (flags mask 16))
        ∙ sym calm,
  )
]

decoded-IsAlarmed :
    (hex : ℕ → String) (raw : Option String) (at : String) (number : Option ℕ)
    → IsAlarmed (undervoltage_now number) (decoded hex raw at number)
unfolding decoded has_active_undervoltage snapshot_of
decoded-IsAlarmed hex raw at none = (refl, refl)
decoded-IsAlarmed hex raw at (some mask) =
    subst (λ alarm. IsAlarmed alarm (decoded hex raw at (some mask))) (lowest_bit mask)
      (decoded-flag hex raw at mask)

-- Whatever `vcgencmd` answers, the decoded snapshot tells the gate an active undervoltage, and has
-- the status critical, exactly where the answer has a number and its lowest bit is set: no other
-- flag, of now or of the past, is an alarm.
pub decode_throttled-IsAlarmed :
    (number : String → Option ℕ) (hex : ℕ → String) (observed_at : String) (raw : Option String)
    → IsAlarmed
        (undervoltage_now (number (get_or raw "")))
        (decode_throttled number hex observed_at raw)
unfolding decode_throttled
decode_throttled-IsAlarmed number hex observed_at raw =
    decoded-IsAlarmed hex raw observed_at (number (get_or raw ""))
