-- ===== src/Host/Conductor/Exchange.antt =====
-- Angles in the range of the servos print within the payload ceiling; and a call that returns goes
-- on.
use auto_robotic_arms.Base.{◌≤◌, ◌≡◌, false, arith, ltb, length, ℤ, pos, negsuc, pos_part, All}
use auto_robotic_arms.Wire.{str_int}
use auto_robotic_arms.Wire.Digits.{IsPrint, dec-IsPrint}
use auto_robotic_arms.Firmware.Accepts.{length-drive_text, drive_text-bytes, IsCommandByte}
use auto_robotic_arms.Joints.{Angles, InRange, IsServo}
use auto_robotic_arms.Link.{Link}
use auto_robotic_arms.Host.Conductor.{Conductor, Outcome, done, drive_payload, then_run}

pub str_int-IsPrint : (a : ℤ) → InRange a → IsPrint (pos_part a) (str_int a)
unfolding str_int
str_int-IsPrint (pos n) h = dec-IsPrint n (omega arith)
str_int-IsPrint (negsuc n) h = absurd (omega arith)

module _ (a : Angles) (servo : IsServo a) where
  pub length-drive_payload : length (drive_payload a) ≤ 15
  unfolding drive_payload
  length-drive_payload =
      length-drive_text (str_int-IsPrint a.base servo.base)
        (str_int-IsPrint a.shoulder servo.shoulder) (str_int-IsPrint a.elbow servo.elbow)

  pub drive_payload-bytes : All IsCommandByte (drive_payload a)
  unfolding drive_payload
  drive_payload-bytes =
      drive_text-bytes (str_int-IsPrint a.base servo.base)
        (str_int-IsPrint a.shoulder servo.shoulder) (str_int-IsPrint a.elbow servo.elbow)

  pub fits_ceiling : ltb 24 (length (drive_payload a)) ≡ false
  fits_ceiling = ground (arith, length-drive_payload)

pub then_run-done :
    (link : Link) {A B : Type 0} (m : Conductor link → Outcome A × Conductor link)
    (k : A → Conductor link → Outcome B × Conductor link) (s : Conductor link) (a : A)
    → (m s).0 ≡ done a
    → then_run link m k s ≡ k a (m s).1
then_run-done link m k s a e = λ i. then_run link (λ _. (e i, (m s).1)) k s
