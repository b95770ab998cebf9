-- ===== src/Pipeline/Landing/Laws.antt =====
-- What `write_to_landing` guarantees: capture, and one row for each idempotency key.
use open_mdm.Base.{
  ℕ, suc, String, ◌≡◌, ◌≢◌, refl, sym, ap, subst, ◌∙◌, true, false, Option, none, some, [], ◌∷◌,
  ◌++◌, find_first, lookup, find_first-append, any-find_first, find_first-any, eq_refl,
  Option-cases, Bool-cases, inl, inr,
}
use open_mdm.Base.Results.{Result, ok, ok-injective}
use open_mdm.Pipeline.Landing.{
  truthy_text, operations, WriteRequest, Landed, has_idempotency_key, key_taken, new_row,
  insert_landing, select_key, land_new, land_keyed, land, write_to_landing,
}
use open_mdm.Sql.{Exc, State, pure, raise, statement, ◌>>=◌}
use open_mdm.Sql.Inversion.{statement-run}
use open_mdm.Tiers.{Operation, LandingStatus, LandingRow, Postgres}

abbrev landed : State → Landed
landed s = record {
  landing_id = s.tables.next_landing;
  status = LandingStatus.pending;
  deduplicated = false;
}

abbrev after : Operation → WriteRequest → State → State
after op req s = record s {
  tables = record s.tables {
    landing = s.tables.landing ++ new_row op req s.tables.next_landing s.now ∷ [];
    next_landing = suc s.tables.next_landing;
  };
}

module _ (pg : Postgres) where
  module _ (req : WriteRequest) (op : Operation) (s : State) where
    insert-run :
        s.aborted ≡ false
        → key_taken req.idempotency_key s.tables.landing ≡ false
        → pg.accepts_landing (new_row op req s.tables.next_landing s.now) ≡ true
        → statement (insert_landing pg op req) s ≡ (ok (landed s), after op req s)
    unfolding insert_landing
    insert-run h k fits = statement-run (insert_landing pg op req) s h ∙ (rw (k, fits))

    -- Whatever refuses the row, the insertion does not return.
    insert-refused :
        (l : Landed) (s' : State)
        → s.aborted ≡ false
        → key_taken req.idempotency_key s.tables.landing ≡ false
        → pg.accepts_landing (new_row op req s.tables.next_landing s.now) ≡ false
        → statement (insert_landing pg op req) s ≢ (ok l, s')
    unfolding insert_landing
    insert-refused l s' h k unfit w =
        absurd (cc (rw (k, unfit) at (sym (statement-run (insert_landing pg op req) s h) ∙ w)))

    -- A key that no row has is looked for in vain.
    select-run :
        (key : String)
        → s.aborted ≡ false
        → (statement (select_key (some key)) >>= land_new pg op req) s
          ≡ land_new pg op req (find_first (has_idempotency_key key) s.tables.landing) s
    unfolding ◌>>=◌ select_key
    select-run key h = rw (statement-run (select_key (some key)) s h)

    land_keyed-run :
        (key : Option String)
        → s.aborted ≡ false
        → key_taken key s.tables.landing ≡ false
        → land_keyed pg op req key s ≡ statement (insert_landing pg op req) s
    unfolding land_keyed
    land_keyed-run none h k = refl
    land_keyed-run (some key) h k = elim (Bool-cases (truthy_text (some key))) [
      | inl t ↦ rw t (
          select-run key h
          ∙ ap (λ (o : Option LandingRow). land_new pg op req o s)
              (find_first-any (has_idempotency_key key) s.tables.landing k))
      | inr f ↦ rw f
    ]

  write-land :
      (req : WriteRequest) (op : Operation) (s : State)
      → lookup req.operation operations ≡ some op
      → write_to_landing pg req s ≡ land_keyed pg op req req.idempotency_key s
  unfolding write_to_landing land
  write-land req op s o = ap (λ (x : Option Operation). land pg req x s) o

  -- A payload of any shape that the table accepts is captured: on a live transaction, a supported
  -- operation whose key, if it has one, is new to the table adds one pending row with exactly the request's payload behind the
  -- others, and changes nothing else.
  pub write_to_landing_captures :
      (req : WriteRequest) (op : Operation) (s : State)
      → lookup req.operation operations ≡ some op
      → s.aborted ≡ false
      → key_taken req.idempotency_key s.tables.landing ≡ false
      → pg.accepts_landing (new_row op req s.tables.next_landing s.now) ≡ true
      → write_to_landing pg req s ≡ (
        ok (record {
          landing_id = s.tables.next_landing;
          status = LandingStatus.pending;
          deduplicated = false;
        }),
        record s {
          tables = record s.tables {
            landing = s.tables.landing ++ new_row op req s.tables.next_landing s.now ∷ [];
            next_landing = suc s.tables.next_landing;
          };
        },
      )
  write_to_landing_captures req op s o h k fits =
      write-land req op s o
      ∙ (land_keyed-run req op s req.idempotency_key h k ∙ insert-run req op s h k fits)

  -- What a successful write with a key leaves behind.
  record Keyed (key : String) (l : Landed) (s : State) : Type 0 where
    row : LandingRow
    found : find_first (has_idempotency_key key) s.tables.landing ≡ some row
    same_id : row.id ≡ l.landing_id
    running : s.aborted ≡ false

  module _ (op : Operation) (req : WriteRequest) (key : String) (s : State) where
    land_keyed-found :
        (row : LandingRow)
        → s.aborted ≡ false
        → truthy_text (some key) ≡ true
        → find_first (has_idempotency_key key) s.tables.landing ≡ some row
        → land_keyed pg op req (some key) s
          ≡ (ok (record { landing_id = row.id; status = row.status; deduplicated = true }), s)
    unfolding land_keyed pure
    land_keyed-found row h t f =
        rw t (select-run req op s key h ∙ ap (λ (o : Option LandingRow). land_new pg op req o s) f)

    land_keyed-Keyed :
        (l : Landed) (s' : State)
        → s.aborted ≡ false
        → truthy_text (some key) ≡ true
        → req.idempotency_key ≡ some key
        → land_keyed pg op req (some key) s ≡ (ok l, s')
        → Keyed key l s'
    land_keyed-Keyed l s' h t e w =
        elim (Option-cases (find_first (has_idempotency_key key) s.tables.landing)) [
          | inl missing ↦
              let fresh = any-find_first (has_idempotency_key key) s.tables.landing missing in
              let vacant = ap (λ (k : Option String). key_taken k s.tables.landing) e ∙ fresh in
              let inserting = sym (land_keyed-run req op s (some key) h fresh) ∙ w in
              elim (Bool-cases (pg.accepts_landing (new_row op req s.tables.next_landing s.now))) [
                | inr unfit ↦ absurd (insert-refused req op s l s' h vacant unfit inserting)
                | inl fits ↦
                    let run = sym (insert-run req op s h vacant fits) ∙ inserting in
                    let same : after op req s ≡ s' =
                      ap (λ (p : Result Exc Landed × State). p.1) run in
                    let same_l : landed s ≡ l =
                      ok-injective (ap (λ (p : Result Exc Landed × State). p.0) run) in
                    subst (Keyed key l) same (
                      subst (λ x. Keyed key x (after op req s)) same_l
                        (record {
                          row = new_row op req s.tables.next_landing s.now;
                          found =
                              find_first-append (has_idempotency_key key) s.tables.landing
                                (new_row op req s.tables.next_landing s.now) missing
                                (rw e (eq_refl key));
                          same_id = refl;
                          running = h;
                        }))
              ]
          | inr (row, found) ↦
              let run = sym (land_keyed-found row h t found) ∙ w in
              let same : s ≡ s' = ap (λ (p : Result Exc Landed × State). p.1) run in
              let same_l = ok-injective (ap (λ (p : Result Exc Landed × State). p.0) run) in
              subst (Keyed key l) same (record {
                row = row;
                found = found;
                same_id = ap (λ (x : Landed). x.landing_id) same_l;
                running = h;
              })
        ]

  write-supported :
      (req : WriteRequest) (s : State) (l : Landed) (s' : State)
      → write_to_landing pg req s ≡ (ok l, s')
      → (op : Operation) × (lookup req.operation operations ≡ some op)
  unfolding write_to_landing land raise
  write-supported req s l s' w = go (lookup req.operation operations) refl w
    where
      go :
          (o : Option Operation)
          → lookup req.operation operations ≡ o
          → land pg req o s ≡ (ok l, s')
          → (op : Operation) × (lookup req.operation operations ≡ some op)
      go none e h = absurd (cc)
      go (some op) e h = (op, e)

  -- Once a write with a non-empty idempotency key has succeeded on a live transaction, a write
  -- with that key in the state that it left, of any supported operation and payload, returns the
  -- first one's landing id, says that it was deduplicated, and changes nothing.
  pub write_to_landing_idempotent :
      (first second : WriteRequest) (key : String) (op : Operation) (s s' : State) (l : Landed)
      → s.aborted ≡ false
      → truthy_text (some key) ≡ true
      → first.idempotency_key ≡ some key
      → second.idempotency_key ≡ some key
      → lookup second.operation operations ≡ some op
      → write_to_landing pg first s ≡ (ok l, s')
      → (status : LandingStatus) × (write_to_landing pg second s'
          ≡ (ok (record { landing_id = l.landing_id; status = status; deduplicated = true }), s'))
  write_to_landing_idempotent first second key op s s' l h t e f o w =
      let (op1, o1) = write-supported first s l s' w in
      let keyed = ap (λ (k : Option String). land_keyed pg op1 first k s) (sym e) in
      let k =
        land_keyed-Keyed op1 first key s l s' h t e
          (keyed ∙ (sym (write-land first op1 s o1) ∙ w)) in
      (
        k.row.status,
        write-land second op s' o
            ∙ (ap (λ (j : Option String). land_keyed pg op second j s') f
                ∙ (land_keyed-found op second key s' k.row k.running t k.found
                    ∙ ap
                        (λ (id : ℕ). (
                          ok (record {
                            landing_id = id;
                            status = k.row.status;
                            deduplicated = true;
                          }),
                          s',
                        ))
                        k.same_id)),
      )
