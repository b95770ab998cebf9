-- ===== src/Tests/Landing.antt =====
-- Witnesses for the landing tier.
use open_mdm.Base.{◌≡◌, refl, true, some, [], ◌∷◌}
use open_mdm.Base.Results.{ok}
use open_mdm.Pipeline.Landing.{write_to_landing, new_row}
use open_mdm.Pipeline.Landing.Laws.{write_to_landing_captures, write_to_landing_idempotent}
use open_mdm.Tests.Fixtures.{pg, create, request, state}
use open_mdm.Tiers.{Operation, LandingStatus}

write_to_landing_idempotent_example :
    (status : LandingStatus) × (write_to_landing pg
        (request "UPDATE" [] (some "g1") (some "k1"))
        (record (state [] [] [] []) {
          tables = record (state [] [] [] []).tables {
            landing = new_row Operation.insert create 5 100 ∷ [];
            next_landing = 6;
          };
        })
      ≡ (
        ok (record { landing_id = 5; status = status; deduplicated = true }),
        record (state [] [] [] []) {
          tables = record (state [] [] [] []).tables {
            landing = new_row Operation.insert create 5 100 ∷ [];
            next_landing = 6;
          };
        },
      ))
write_to_landing_idempotent_example =
    write_to_landing_idempotent pg create (request "UPDATE" [] (some "g1") (some "k1")) "k1"
      Operation.update (state [] [] [] []) _ _ refl refl refl refl refl
      (write_to_landing_captures pg create Operation.insert (state [] [] [] []) refl refl refl refl)
