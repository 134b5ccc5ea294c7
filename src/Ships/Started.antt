-- ===== src/Ships/Started.antt =====
-- Attempts of registry/ships.py are started once: no call but an operator's resolution makes an attempt
-- prepared again.
use ompire.Base.{List, false, find, some, ℕ, ◌≡◌, ◌≢◌, string_eq, ℕ_eq}
use ompire.Json.{Json}
use ompire.Ships.Rows.{Action, is_prepared, Kind_eq}
use ompire.Ships.Tables.{Db, find_action}
use ompire.Ships.Single.{with_id}
use ompire.Ships.Steps.{Step, resolve}

-- The call is no resolution of the attempt.
abbrev pub Spares : ℕ → {db db' : Db} → Step db db' → Type 0
Spares i (resolve j x now r old found live h) = j ≢ i
Spares i _ = Unit

-- Committed calls, in any order and on any attempts, none of which resolves the attempt `i`.
pub data Onward (i : ℕ) (db : Db) : Db → Type 0 where
  here : Onward i db db
  then : {db₁ db₂ : Db} → Onward i db db₁ → (s : Step db₁ db₂) → Spares i s → Onward i db db₂

-- The attempt is there, and is no longer prepared.
pub record Begun (db : Db) (i : ℕ) : Type 0 where
  pub row : Action
  pub found : find_action db i ≡ some row
  pub begun : is_prepared row.phase ≡ false

-- The same of a list of attempts.
abbrev BegunIn : List Action → ℕ → Type 0
BegunIn rows i =
    (row : Action) × (find (with_id i) rows ≡ some row) × (is_prepared row.phase ≡ false)

in_rows : (db : Db) (i : ℕ) → Begun db i → BegunIn db.actions i
unfolding find_action
in_rows db i b = (b.row, b.found, b.begun)

of_rows : (db : Db) (i : ℕ) → BegunIn db.actions i → Begun db i
unfolding find_action
of_rows db i b = record { row = b.0; found = b.1; begun = b.2 }
