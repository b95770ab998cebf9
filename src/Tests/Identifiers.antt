-- ===== src/Tests/Identifiers.antt =====
-- Witnesses for names, quoting and types.
use open_mdm.Base.{arith, ℕ, ◌≡◌, refl, String, true, false, none, some, [], ◌∷◌, member}
use open_mdm.Base.Results.{ok}
use open_mdm.Identifiers.{validate_ident, reserved}
use open_mdm.Identifiers.Naming.{plain, Accepted, validate_ident_sound}
use open_mdm.Base.Int.{pos}
use open_mdm.Identifiers.Types.{of_length, pg_type}
use open_mdm.Identifiers.Types.Widening.{holds, widening_keeps_texts}
use open_mdm.Python.Str.{lower}
use open_mdm.Tests.Fixtures.{py}

validate_ident_sound_example :
    (member "supplier" reserved ≡ false)
    × Accepted plain "supplier"
    × (validate_ident py "supplier" ≡ ok "supplier")
unfolding validate_ident lower open_mdm.Base.Text.lower_ascii
validate_ident_sound_example = validate_ident_sound py "SUPPLIER" "supplier" refl

widening_keeps_texts_example : holds (of_length "varchar" (pos 100)) 50 ≡ true
unfolding open_mdm.Identifiers.Types.logical_type open_mdm.Identifiers.Types.is_safe_widening
    pg_type lower open_mdm.Base.Text.lower_ascii
widening_keeps_texts_example =
    widening_keeps_texts py "string" "STRING" (some (pos 50)) (pos 100) none none none none
      (of_length "varchar" (pos 50)) (of_length "varchar" (pos 100)) 50 refl refl refl refl refl
      refl
