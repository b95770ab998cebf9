-- ===== src/System/Landing.antt =====
-- The landing tier under every sequence of transactions: nothing that was captured is lost or
-- altered.
use open_mdm.Base.{
  map-append, append_assoc, append-nil, ℕ, ◌≡◌, refl, ap, ◌∙◌, Bool, true, false, Option, none,
  List, [], ◌∷◌, ◌++◌, map, update_where, eqb, if◌then◌else◌,
}
use open_mdm.Models.{Entity}
use open_mdm.Pipeline.Landing.{new_row}
use open_mdm.Pipeline.Promotion.{as_marked}
use open_mdm.Pipeline.Review.Golden.Changes.{GoldenStable}
use open_mdm.Python.{Python}
use open_mdm.Settings.{Settings}
use open_mdm.Sql.{Exc, State}
use open_mdm.System.{Event, run_all}
use open_mdm.System.Steps.{run_all-keeps}
use open_mdm.Tiers.{LandingStatus, LandingRow, Postgres}

-- A landing row as it was captured: without what a promotion writes.
abbrev pub captured : LandingRow → LandingRow
captured row = record row { status = LandingStatus.pending; errors = none; processed_at = none }

-- The rows start with those of another table, which may have been processed since.
abbrev pub Extends : List LandingRow → List LandingRow → Type 0
Extends old rows = (added : List LandingRow) × (map captured rows ≡ map captured old ++ added)

marked_captured :
    (b : Bool) (status : LandingStatus) (raised_by : Option Exc) (now : ℕ) (row : LandingRow)
    → captured (if b then as_marked status raised_by now row else row) ≡ captured row
marked_captured true status raised_by now row = refl
marked_captured false status raised_by now row = refl

map-captured-marked :
    (status : LandingStatus) (raised_by : Option Exc) (id now : ℕ) (rows : List LandingRow)
    → map captured (update_where (λ row. eqb row.id id) (as_marked status raised_by now) rows)
      ≡ map captured rows
map-captured-marked status raised_by id now [] = refl
map-captured-marked status raised_by id now (row ∷ rows) = rw (
  marked_captured (eqb row.id id) status raised_by now row,
  map-captured-marked status raised_by id now rows,
)

Extends-add :
    (old rows : List LandingRow) (new : LandingRow)
    → Extends old rows
    → Extends old (rows ++ new ∷ [])
Extends-add old rows new (added, h) = (
  added ++ captured new ∷ [],
  map-append captured rows (new ∷ [])
      ∙ (ap (λ xs. xs ++ captured new ∷ []) h ∙ append_assoc (map captured old) added _),
)

module _ (cfg : Settings) (pg : Postgres) (py : Python) (entity : Entity) where
  LandingOnly : (P : List LandingRow → Type 0) → GoldenStable (λ t. P t.landing)
  LandingOnly P = record {
    insert = λ golden t k p. p;
    change = λ id change t same bump p. p;
    remove = λ id t p. p;
    history = λ row t p. p;
  }

  -- What was captured stays: after every sequence of transactions the landing tier starts with the
  -- rows that it had, in their order, each with all its fields as they were except its status, its
  -- errors and its time of processing.
  pub run_all-Extends :
      (events : List Event) (s : State)
      → Extends s.tables.landing (run_all cfg pg py entity events s).tables.landing
  run_all-Extends events s =
      run_all-keeps pg py entity cfg {P = λ t. Extends s.tables.landing t.landing}
        (record {
          sequenced = λ t l s hl hs p. p;
          landing = record {
            add = λ op req now t free p.
                Extends-add s.tables.landing t.landing (new_row op req t.next_landing now) p;
          };
          promotion = record {
            mark = λ status raised_by id now t p.
                (p.0, map-captured-marked status raised_by id now t.landing ∙ p.1);
            add = λ batch_id r o found t p. p;
          };
          staging = record {
            review = λ test status actor remark now t p. p;
            edit = λ pg py entity id o fields actor now t p. p;
          };
        })
        (LandingOnly (Extends s.tables.landing)) events s
        ([], append-nil (map captured s.tables.landing))
