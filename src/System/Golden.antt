-- ===== src/System/Golden.antt =====
-- The golden tier and its history under every sequence of transactions.
use open_mdm.Base.{
  eq_sym, or_left, or_right, any-keep, append_assoc, append-nil, any-update_where, any-add, ◌≡◌,
  refl, ap, ◌∙◌, Bool, true, false, not, List, [], ◌∷◌, ◌++◌, any, all, keep, update_where,
  Bool-cases, inl, inr, if◌then◌else◌, ◌==◌,
}
use open_mdm.Models.{Entity}
use open_mdm.Pipeline.Review.Golden.{has_live_id}
use open_mdm.Python.{Python}
use open_mdm.Settings.{Settings}
use open_mdm.Sql.{State}
use open_mdm.Sql.Keeps.{Keeps}
use open_mdm.System.{Event, write, promote, approve, reject, edit, transaction, run_all}
use open_mdm.System.Steps.{
  Pending, run_all-keeps, write_event-Keeps, promote_event-Keeps, reject_event-Keeps,
  edit_event-Keeps,
}
use open_mdm.Tiers.{LiveRow, HistoryRow, Tables, Postgres}

-- A property of the golden tier alone.
abbrev pub GoldenOf : (List LiveRow → List HistoryRow → Type 0) → Tables → Type 0
GoldenOf P t = P t.live t.history

-- The history starts with another one.
abbrev pub Starts : List HistoryRow → List HistoryRow → Type 0
Starts old rows = (added : List HistoryRow) × (rows ≡ old ++ added)

-- Every id once: the primary key of the live table.
abbrev pub UniqueIds : List LiveRow → Type 0
UniqueIds [] = Unit
UniqueIds (row ∷ rows) = (any (has_live_id row.id) rows ≡ false) × UniqueIds rows

abbrev pub is_approval : Event → Bool
is_approval (approve id actor roles remark enforce_sod) = true
is_approval _ = false

module _ (new : LiveRow) where
  UniqueIds-add :
      (rows : List LiveRow)
      → UniqueIds rows
      → any (has_live_id new.id) rows ≡ false
      → UniqueIds (rows ++ new ∷ [])
  UniqueIds-add [] u h = (refl, tt)
  UniqueIds-add (row ∷ rows) u h = (
    any-add (has_live_id row.id) rows new u.0 (eq_sym row.id new.id (or_left _ _ h)),
    UniqueIds-add rows u.1 (or_right _ _ h),
  )

UniqueIds-keep :
    (p : LiveRow → Bool) (rows : List LiveRow) → UniqueIds rows → UniqueIds (keep p rows)
UniqueIds-keep p [] u = u
UniqueIds-keep p (row ∷ rows) u = elim (Bool-cases (p row)) [
  | inl t ↦ rw t (any-keep (has_live_id row.id) p rows u.0, UniqueIds-keep p rows u.1)
  | inr f ↦ rw f (UniqueIds-keep p rows u.1)
]

module _ (f : LiveRow → LiveRow) (same : (row : LiveRow) → (f row).id ≡ row.id) where
  if_same : (b : Bool) (row : LiveRow) → (if b then f row else row).id ≡ row.id
  if_same true row = same row
  if_same false row = refl

  UniqueIds-update_where :
      (p : LiveRow → Bool) (rows : List LiveRow)
      → UniqueIds rows
      → UniqueIds (update_where p f rows)
  UniqueIds-update_where p [] u = u
  UniqueIds-update_where p (row ∷ rows) u = (
    rw (if_same (p row) row) (
        any-update_where (has_live_id row.id) p f (λ x. ap (λ id. id == row.id) (same x)) rows
        ∙ u.0),
    UniqueIds-update_where p rows u.1,
  )

module _ (pg : Postgres) (py : Python) (entity : Entity) where
  pending_golden : (P : List LiveRow → List HistoryRow → Type 0) → Pending pg py entity (GoldenOf P)
  pending_golden P = record {
    sequenced = λ t l s hl hs p. p;
    landing = record { add = λ op req now t free p. p };
    promotion = record {
      mark = λ status raised_by id now t p. p;
      add = λ batch_id r o found t p. p;
    };
    staging = record {
      review = λ test status actor remark now t p. p;
      edit = λ pg py entity id o fields actor now t p. p;
    };
  }

  module _ (cfg : Settings) where
    quiet :
        (P : List LiveRow → List HistoryRow → Type 0) (event : Event)
        → is_approval event ≡ false
        → Keeps (GoldenOf P) (transaction cfg pg py entity event)
    quiet P (write req) h = write_event-Keeps pg py entity cfg (pending_golden P) req
    quiet P (promote b ids limit actor) h =
        promote_event-Keeps pg py entity cfg (pending_golden P) b ids limit actor
    quiet P (approve id actor roles remark enforce_sod) h = absurd (cc)
    quiet P (reject id shown actor roles reason) h =
        reject_event-Keeps pg py entity cfg (pending_golden P) id shown actor roles reason
    quiet P (edit id updates actor roles shown) h =
        edit_event-Keeps pg py entity cfg (pending_golden P) id updates actor roles shown

    abbrev Frozen : List LiveRow → List HistoryRow → List LiveRow → List HistoryRow → Type 0
    Frozen live history l h = (l ≡ live) × (h ≡ history)

    Frozen-all :
        (live : List LiveRow) (history : List HistoryRow) (events : List Event) (s : State)
        → all (λ event. not (is_approval event)) events ≡ true
        → GoldenOf (Frozen live history) s.tables
        → GoldenOf (Frozen live history) (run_all cfg pg py entity events s).tables
    unfolding run_all
    Frozen-all live history [] s h p = p
    Frozen-all live history (event ∷ events) s h p = elim (Bool-cases (is_approval event)) [
      | inl t ↦ absurd (cc (rw t at h))
      | inr f ↦
          Frozen-all live history events (transaction cfg pg py entity event s).1 (rw f at h)
            ((quiet (Frozen live history) event f).at s p)
    ]

    -- Nothing but an approval touches the golden tier: any sequence of writes, promotions,
    -- rejections and edits, failed ones included, leaves every golden record and the whole history
    -- as they were.
    pub golden_only_by_approval :
        (events : List Event) (s : State)
        → all (λ event. not (is_approval event)) events ≡ true
        → ((run_all cfg pg py entity events s).tables.live ≡ s.tables.live)
          × ((run_all cfg pg py entity events s).tables.history ≡ s.tables.history)
    golden_only_by_approval events s h =
        Frozen-all s.tables.live s.tables.history events s h (refl, refl)

    -- The history is append-only: after every sequence of transactions it starts with what it was.
    pub history_append_only :
        (events : List Event) (s : State)
        → Starts s.tables.history (run_all cfg pg py entity events s).tables.history
    history_append_only events s =
        run_all-keeps pg py entity cfg {P = GoldenOf (λ l h. Starts s.tables.history h)}
          (pending_golden (λ l h. Starts s.tables.history h))
          (record {
            insert = λ golden t k p. p;
            change = λ id change t same bump p. p;
            remove = λ id t p. p;
            history = λ row t p. (
              p.0 ++ row ∷ [],
              ap (λ rows. rows ++ row ∷ []) p.1 ∙ append_assoc s.tables.history p.0 (row ∷ []),
            );
          })
          events s ([], append-nil s.tables.history)

    -- No two golden records share an id: if that is so at first, it is so after every sequence of
    -- transactions.
    pub golden_ids_stay_unique :
        (events : List Event) (s : State)
        → UniqueIds s.tables.live
        → UniqueIds (run_all cfg pg py entity events s).tables.live
    golden_ids_stay_unique =
        run_all-keeps pg py entity cfg {P = GoldenOf (λ l h. UniqueIds l)}
          (pending_golden (λ l h. UniqueIds l))
          (record {
            insert = λ golden t k p. UniqueIds-add golden t.live p k;
            change = λ id change t same bump p.
                UniqueIds-update_where change same (has_live_id id) t.live p;
            remove = λ id t p. UniqueIds-keep (λ row. not (row.id == id)) t.live p;
            history = λ row t p. p;
          })
