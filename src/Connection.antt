-- ===== src/Connection.antt =====
-- A transaction on the connection of src/hotmem/db.py: what is committed of the tables that a part of
-- the model has, and what the statements of the open transaction have made of them.
pub record Connection (A : Type 0) : Type 0 where
  pub committed : A
  pub working : A

module _ {A : Type 0} where
  -- A connection with no open changes.
  abbrev pub clean : A → Connection A
  clean db = record { committed = db; working = db }

  -- A statement with `_commit=False`.
  abbrev pub execute : (A → A) → Connection A → Connection A
  execute statement c = record c { working = statement c.working }

  -- `db.commit()`
  abbrev pub db_commit : Connection A → Connection A
  db_commit c = record c { committed = c.working }

  -- `db.rollback()`
  abbrev pub db_rollback : Connection A → Connection A
  db_rollback c = record c { working = c.committed }
