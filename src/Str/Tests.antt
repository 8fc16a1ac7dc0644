-- ===== src/Str/Tests.antt =====
-- Numbers, formats and comparisons in a memory that holds 7 everywhere.
use bloreos.Base.{◌≡◌, refl, ◌==◌, ◌||◌, some, [], ◌∷◌, Ram, if◌then◌else◌, arith}
use bloreos.Str.{equal, unequal, strcmp}
use bloreos.Str.Numbers.{Digits, ultoa, ultoua}
use bloreos.Str.Decimal.{IsText, ultoa-IsText}
use bloreos.Str.Format.{vsnprintf}
use bloreos.Str.Format.Plain.{Printed, vsnprintf-Printed}
use bloreos.Str.Compare.{prefix, strcmp_lem}

abbrev sevens : Ram
sevens a = 7

-- The string `he` at address 100.
abbrev with_he : Ram
with_he a = if a == 100 then b'h' else if a == 101 then b'e' else if a == 102 then 0 else 7

ultoa-IsText_example :
    IsText b'a' 16 100 48879 (ultoa sevens 48879 100 16)
    × IsText b'A' 16 100 48879 (ultoua sevens 48879 100 16)
ultoa-IsText_example = ultoa-IsText sevens 48879 100 16 (omega arith) (omega arith) (omega arith)

vsnprintf-Printed_example :
    (d : Digits) × (vsnprintf sevens 100 4 (b'h' ∷ b'e' ∷ b'l' ∷ b'l' ∷ b'o' ∷ []) [] ≡ some d)
    × Printed sevens 100 4 (b'h' ∷ b'e' ∷ b'l' ∷ b'l' ∷ b'o' ∷ []) d
vsnprintf-Printed_example =
    vsnprintf-Printed sevens 100 4 (b'h' ∷ b'e' ∷ b'l' ∷ b'l' ∷ b'o' ∷ []) [] (omega arith)
      (omega arith) refl

strcmp_lem_example : strcmp with_he 100 (b'h' ∷ b'e' ∷ b'l' ∷ b'p' ∷ []) ≡ (
    if prefix (b'h' ∷ b'e' ∷ []) (b'h' ∷ b'e' ∷ b'l' ∷ b'p' ∷ [])
      || prefix (b'h' ∷ b'e' ∷ b'l' ∷ b'p' ∷ []) (b'h' ∷ b'e' ∷ [])
    then equal
    else unequal)
strcmp_lem_example =
    strcmp_lem with_he 100 (b'h' ∷ b'e' ∷ []) (b'h' ∷ b'e' ∷ b'l' ∷ b'p' ∷ [])
      (refl, omega arith, (refl, omega arith, refl))
