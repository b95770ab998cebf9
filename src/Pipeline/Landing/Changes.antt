-- ===== src/Pipeline/Landing/Changes.antt =====
-- The only change that `write_to_landing` makes: it appends a row, whose key is new to the table.
use open_mdm.Base.{
  ℕ, suc, String, ◌≡◌, subst, Bool, true, false, not, and_left, Option, none, some, [], ◌∷◌, ◌++◌,
  lookup,
}
use open_mdm.Pipeline.Landing.{
  operations, WriteRequest, key_taken, new_row, insert_landing, select_key, land_new, land_keyed,
  land, write_to_landing,
}
use open_mdm.Pipeline.Promotion.Target.Reads.{read-same}
use open_mdm.Sql.{statement}
use open_mdm.Sql.Keeps.{Keeps, Keeps-statement, accept-ok, keeps_rules}
use open_mdm.Tiers.{Operation, LandingRow, Tables, Postgres}

abbrev pub with_landed : LandingRow → Tables → Tables
with_landed row t = record t { landing = t.landing ++ row ∷ []; next_landing = suc t.next_landing }

-- What a write needs of a property of the tables.
pub record LandingStable (P : Tables → Type 0) : Type 0 where
  pub add :
      (op : Operation) (req : WriteRequest) (now : ℕ) (t : Tables)
      → key_taken req.idempotency_key t.landing ≡ false
      → P t
      → P (with_landed (new_row op req t.next_landing now) t)

vacant : (taken : Bool) → not taken ≡ true → taken ≡ false
vacant true h = absurd (cc)
vacant false h = cc

module _ (pg : Postgres) {P : Tables → Type 0} (stable : LandingStable P) where
  insert_landing-Keeps :
      (op : Operation) (req : WriteRequest) → Keeps P (statement (insert_landing pg op req))
  unfolding insert_landing
  insert_landing-Keeps op req = Keeps-statement (insert_landing pg op req) (λ n t a t' h p.
      let (fits, same) = accept-ok _ _ a _ t' h in
      subst P same (stable.add op req n t (vacant _ (and_left _ _ fits)) p))

  select_key-Keeps : (key : Option String) → Keeps P (statement (select_key key))
  unfolding select_key
  select_key-Keeps none = Keeps-statement (select_key none) (λ n t a t' h p. read-same P h p)
  select_key-Keeps (some key) =
      Keeps-statement (select_key (some key)) (λ n t a t' h p. read-same P h p)

  land_new-Keeps :
      (op : Operation) (req : WriteRequest) (o : Option LandingRow) → Keeps P (land_new pg op req o)
  unfolding land_new
  land_new-Keeps op req none = search (insert_landing-Keeps)
  land_new-Keeps op req (some row) = search keeps_rules

  land-Keeps : (req : WriteRequest) (o : Option Operation) → Keeps P (land pg req o)
  unfolding land land_keyed
  land-Keeps req none = search keeps_rules
  land-Keeps req (some op) =
      search (keeps_rules, select_key-Keeps, land_new-Keeps, insert_landing-Keeps)

  pub write-Keeps : (req : WriteRequest) → Keeps P (write_to_landing pg req)
  unfolding write_to_landing
  write-Keeps req = land-Keeps req (lookup req.operation operations)
