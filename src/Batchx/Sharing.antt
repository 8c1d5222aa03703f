-- ===== src/Batchx/Sharing.antt =====
-- What calls on several handles do to the batch that they share.
use cqlx.Batchx.Handles.{
  Batch, DriverBatch, ctx_or_background, with_context, on_batch, consistency, default_timestamp,
  observer, retry_policy, serial_consistency, set_keyspace, speculative_execution_policy, trace,
  with_now_in_seconds, with_timestamp, query, execute_batch,
}
use cqlx.Common.{
  ℕ, zero, suc, Bytes, List, [], ◌∷◌, Bool, Option, none, some, ◌≡◌, ◌≢◌, refl, sym, ap, ◌∙◌,
}
use cqlx.Queryx.{◌>>=◌, get_elem?, set_elem}

module _ {A : Type 0} where
  -- Writing an element that is there: it is read back, and the others are as they were.
  record IsWritten (xs : List A) (i : ℕ) (y : A) (ys : List A) : Type 0 where
    written : set_elem xs i y ≡ some ys
    there : get_elem? ys i ≡ some y
    elsewhere : (j : ℕ) → j ≢ i → get_elem? ys j ≡ get_elem? xs j

  set_elem-IsWritten :
      (xs : List A) (i : ℕ) (x y : A)
      → get_elem? xs i ≡ some x
      → (ys : List A) × IsWritten xs i y ys
  unfolding get_elem? set_elem
  set_elem-IsWritten [] i x y h = cc
  set_elem-IsWritten (z ∷ xs) zero x y h =
      (y ∷ xs, record { written = refl; there = refl; elsewhere = λ j ne. others j ne })
    where
      others : (j : ℕ) → j ≢ zero → get_elem? (y ∷ xs) j ≡ get_elem? (z ∷ xs) j
      others zero ne = absurd (ne refl)
      others (suc j) ne = refl
  set_elem-IsWritten (z ∷ xs) (suc i) x y h =
      let (ys, rest) = set_elem-IsWritten xs i x y h in
      (
        z ∷ ys,
        record {
          written = rw (rest.written) refl;
          there = rest.there;
          elsewhere = λ j ne. others ys rest j ne;
        },
      )
    where
      others :
          (ys : List A)
          → IsWritten xs i y ys
          → (j : ℕ) → j ≢ suc i
          → get_elem? (z ∷ ys) j ≡ get_elem? (z ∷ xs) j
      others ys rest zero ne = refl
      others ys rest (suc j) ne = rest.elsewhere j (λ e. ne (ap suc e))

-- The methods of `Batch` that change the batch of the driver, each with its change.
pub data Changes {C D A O R P S T : Type 0} (driver : DriverBatch D A O R P S T)
    : (D → D) → (Batch C → List D → Option (List D)) → Type 0 where
  by_consistency : (c : ℕ) → Changes driver (driver.consistency c) (consistency driver c)
  by_default_timestamp :
      (b : Bool) → Changes driver (driver.default_timestamp b) (default_timestamp driver b)
  by_observer : (o : O) → Changes driver (driver.observer o) (observer driver o)
  by_retry_policy : (r : R) → Changes driver (driver.retry_policy r) (retry_policy driver r)
  by_serial_consistency :
      (c : ℕ) → Changes driver (driver.serial_consistency c) (serial_consistency driver c)
  by_keyspace : (k : Bytes) → Changes driver (driver.set_keyspace k) (set_keyspace driver k)
  by_speculative_execution_policy :
      (p : P)
      → Changes driver
          (driver.speculative_execution_policy p)
          (speculative_execution_policy driver p)
  by_trace : (t : T) → Changes driver (driver.trace t) (trace driver t)
  by_now : (s : S) → Changes driver (driver.with_now_in_seconds s) (with_now_in_seconds driver s)
  by_timestamp : (s : S) → Changes driver (driver.with_timestamp s) (with_timestamp driver s)
  by_query :
      (stmt : Bytes) (args : List A)
      → Changes driver (driver.query stmt args) (query driver stmt args)

module _ {C D A O R P S T : Type 0} (driver : DriverBatch D A O R P S T) where
  Changes-on_batch :
      {f : D → D} {m : Batch C → List D → Option (List D)}
      → Changes driver f m
      → (b : Batch C) (batches : List D) → m b batches ≡ on_batch f b batches
  unfolding consistency default_timestamp observer retry_policy serial_consistency set_keyspace
      speculative_execution_policy trace with_now_in_seconds with_timestamp query
  Changes-on_batch (by_consistency c) b batches = refl
  Changes-on_batch (by_default_timestamp x) b batches = refl
  Changes-on_batch (by_observer o) b batches = refl
  Changes-on_batch (by_retry_policy r) b batches = refl
  Changes-on_batch (by_serial_consistency c) b batches = refl
  Changes-on_batch (by_keyspace k) b batches = refl
  Changes-on_batch (by_speculative_execution_policy p) b batches = refl
  Changes-on_batch (by_trace t) b batches = refl
  Changes-on_batch (by_now s) b batches = refl
  Changes-on_batch (by_timestamp s) b batches = refl
  Changes-on_batch (by_query stmt args) b batches = refl

  -- One call, on a handle that shares the batch.
  pub record Step (b : Batch C) : Type 0 where
    pub handle : Batch C
    pub same : handle.batch ≡ b.batch
    pub change : D → D
    pub method : Batch C → List D → Option (List D)
    pub changes : Changes driver change method

  -- The calls one after the other.
  unfoldable pub run : {b : Batch C} → List (Step b) → List D → Option (List D)
  run [] batches = some batches
  run (s ∷ steps) batches = do batches' ← s.method s.handle batches; run steps batches'

  -- Their changes, one after the other.
  unfoldable pub changed : {b : Batch C} → List (Step b) → D → D
  changed [] d = d
  changed (s ∷ steps) d = changed steps (s.change d)

  on_batch-IsWritten :
      (f : D → D) (b : Batch C) (batches : List D) (d : D)
      → get_elem? batches b.batch ≡ some d
      → (batches' : List D) × (on_batch f b batches ≡ some batches')
        × IsWritten batches b.batch (f d) batches'
  unfolding on_batch
  on_batch-IsWritten f b batches d h =
      let (batches', set) = set_elem-IsWritten batches b.batch d (f d) h in
      (batches', rw (h, on_batch) set.written, set)

  run-changed :
      {b : Batch C} (steps : List (Step b)) (batches : List D) (d : D)
      → get_elem? batches b.batch ≡ some d
      → (batches' : List D) × (run steps batches ≡ some batches')
        × (get_elem? batches' b.batch ≡ some (changed steps d))
        × ((j : ℕ) → j ≢ b.batch → get_elem? batches' j ≡ get_elem? batches j)
  unfolding run changed
  run-changed [] batches d h = (batches, refl, h, λ j ne. refl)
  run-changed (s ∷ steps) batches d h =
      let (batches₁, stepped, set) =
        on_batch-IsWritten s.change s.handle batches d (ap (get_elem? batches) s.same ∙ h) in
      let (batches', rest, there, elsewhere) =
        run-changed steps batches₁ (s.change d)
          (ap (get_elem? batches₁) (sym s.same) ∙ set.there) in
      (
        batches',
        rw (Changes-on_batch s.changes s.handle batches ∙ stepped, run) rest,
        there,
        λ j ne. elsewhere j ne ∙ set.elsewhere j (λ e. ne (e ∙ s.same)),
      )

  -- Calls on a handle whose batch is in the store, and on the copies that `WithContext` makes of
  -- it, in any order, all change the one batch of the driver, and no other. Both the handle and a
  -- copy then execute that batch, with every change, each with its own context or else the
  -- background one.
  pub execute_batch-shared :
      {W X : Type 0} (background : C) (exec_context : C → D → W → X) (b : Batch C) (ctx : Option C)
      (steps : List (Step b)) (batches : List D) (d : D) (w : W)
      → get_elem? batches b.batch ≡ some d
      → (batches' : List D) × (run steps batches ≡ some batches')
        × (execute_batch background exec_context b batches' w
            ≡ some (
                exec_context
                  (elim b.ctx [ none ↦ background | some own ↦ own ])
                  (changed steps d)
                  w))
        × (execute_batch background exec_context (with_context ctx b) batches' w
            ≡ some (
                exec_context (elim ctx [ none ↦ background | some own ↦ own ]) (changed steps d) w))
        × ((j : ℕ) → j ≢ b.batch → get_elem? batches' j ≡ get_elem? batches j)
  unfolding execute_batch with_context ctx_or_background
  execute_batch-shared background exec_context b ctx steps batches d w h =
      let (batches', runs, there, elsewhere) = run-changed steps batches d h in
      (batches', runs, rw (there, execute_batch) refl, rw (there, execute_batch) refl, elsewhere)
