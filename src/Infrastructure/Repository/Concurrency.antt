-- ===== src/Infrastructure/Repository/Concurrency.antt =====
-- Optimistic concurrency of `save`, and what becomes of the collected events.
use enterprise_system.Prelude.{
  ℕ, ◌+◌, ◌≤◌, ◌-◌, ◌≡◌, ◌≢◌, [], Option, none, some, refl, arith, Except, ok, throw, Text,
}
use enterprise_system.Domain.Fault.{Fault, concurrency_conflict}
use enterprise_system.Domain.User.{User}
use enterprise_system.Infrastructure.Repository.Mapping.{Row, to_domain}
use enterprise_system.Infrastructure.Repository.{
  RowData, DbError, unique_violation, record_not_found, other, Client, db, as_fault, loaded,
  rescue_save, write, update_row, row_data, save,
}

-- A user that is built from a row has no events.
pub to_domain-events : (row : Row) (u : User) → to_domain row ≡ ok u → u.domain_events ≡ []
unfolding to_domain
to_domain-events row u h = ground arith

rescue_save-as_fault :
    (u v : User) (r : Except Fault User) → rescue_save u (as_fault r) ≡ ok v → r ≡ ok v
unfolding rescue_save as_fault
rescue_save-as_fault u v (ok w) h = cc
rescue_save-as_fault u v (throw e) h = cc

-- A write whose row was read back gives a user that was built from that row.
rescue_save-loaded :
    (u v : User) (r : Except DbError Row)
    → rescue_save u (loaded r) ≡ ok v
    → (row : Row) × (r ≡ ok row) × (to_domain row ≡ ok v)
unfolding loaded rescue_save
rescue_save-loaded u v (ok row) h = (row, refl, rescue_save-as_fault u v (to_domain row) h)
rescue_save-loaded u v (throw (unique_violation fields)) h = absurd (ground arith)
rescue_save-loaded u v (throw record_not_found) h = cc
rescue_save-loaded u v (throw other) h = cc

rescue_save-db : (u v : User) (e : DbError) → rescue_save u (throw (db e)) ≢ ok v
unfolding rescue_save
rescue_save-db u v (unique_violation fields) h = ground arith
rescue_save-db u v record_not_found h = cc
rescue_save-db u v other h = cc

module _ {Store : Type 0} (client : Client Store) where
  write-events :
      (u v : User) (r : Except DbError (Option Row)) (s : Store)
      → (write client u r s).0 ≡ ok v
      → v.domain_events ≡ []
  unfolding write
  write-events u v (throw e) s h = absurd (rescue_save-db u v e h)
  write-events u v (ok none) s h =
      let (row, f, g) = rescue_save-loaded u v _ h in to_domain-events row v g
  write-events u v (ok (some row)) s h =
      let (row, f, g) = rescue_save-loaded u v _ h in to_domain-events row v g

  -- The user that `save` returns has no events, whatever the client does.
  pub save-events : (u v : User) (s : Store) → (save client u s).0 ≡ ok v → v.domain_events ≡ []
  unfolding save
  save-events u v s h =
      write-events u v (client.find_by_id u.id.value s).0 (client.find_by_id u.id.value s).1 h

-- What the client documents of reads and of an update that names a row by id and version.
pub record IsVersioned {Store : Type 0} (client : Client Store) : Type 0 where
  pub reads : (id : Text) (s : Store) → (client.find_by_id id s).1 ≡ s
  pub stale :
      (id : Text) (version : ℕ) (d : RowData) (s : Store) (row : Row)
      → (client.find_by_id id s).0 ≡ ok (some row)
      → row.version ≢ version
      → (client.update id version d s).0 ≡ throw record_not_found
  pub updated :
      (id : Text) (version : ℕ) (d : RowData) (s : Store) (row : Row)
      → (client.update id version d s).0 ≡ ok row
      → (row.version ≡ d.version)
        × ((client.find_by_id id (client.update id version d s).1).0 ≡ ok (some row))

module _ {Store : Type 0} (client : Client Store) (laws : IsVersioned client) where
  -- Over a row, `save` is the update.
  save-row :
      (u : User) (s : Store) (row : Row)
      → (client.find_by_id u.id.value s).0 ≡ ok (some row)
      → save client u s ≡ update_row client u s
  unfolding save
  save-row u s row f = rw f (rw (laws.reads u.id.value s))

  -- Over a client that does what it documents, saving a user over a row whose version is not one less than
  -- that of the user, which is at least 1, is refused as a conflict.
  pub save-stale :
      (u : User) (s : Store) (row : Row)
      → (client.find_by_id u.id.value s).0 ≡ ok (some row)
      → u.version ≢ row.version + 1
      → 1 ≤ u.version
      → (save client u s).0 ≡ throw (concurrency_conflict u.id.value)
  save-stale u s row f n p =
      let written : RowData = row_data u u.password.hashed_value in
      rw (save-row u s row f) (
        unfold update_row in
        rw (laws.stale u.id.value (u.version - 1) written s row f (omega arith)))

  save-stored :
      (u v : User) (s : Store) (row : Row)
      → (client.find_by_id u.id.value s).0 ≡ ok (some row)
      → (save client u s).0 ≡ ok v
      → (new : Row) × (new.version ≡ u.version)
        × ((client.find_by_id u.id.value (save client u s).1).0 ≡ ok (some new))
  unfolding update_row
  save-stored u v s row f h =
      let e = save-row u s row f in
      let written : RowData = row_data u u.password.hashed_value in
      let (new, g, k) =
        rescue_save-loaded u v (client.update u.id.value (u.version - 1) written s).0 (rw e at h) in
      let (same, found) = laws.updated u.id.value (u.version - 1) written s new g in
      (new, same, rw e found)

  -- Over a client that does what it documents: once a user was saved over a row, saving another one with
  -- the same id and the same version, which is at least 1, is refused as a conflict.
  pub save-save :
      (first second saved : User) (s : Store) (row : Row)
      → (client.find_by_id first.id.value s).0 ≡ ok (some row)
      → second.id ≡ first.id
      → second.version ≡ first.version
      → 1 ≤ first.version
      → (save client first s).0 ≡ ok saved
      → (save client second (save client first s).1).0
        ≡ throw (concurrency_conflict second.id.value)
  save-save first second saved s row f i e p h =
      let (new, same, found) = save-stored first saved s row f h in
      save-stale second (save client first s).1 new (rw i found) (omega arith) (omega arith)
