-- ===== src/Batchx/Handles.antt =====
-- batchx.go, `Batch` itself: a handle on a batch of the driver, with a context. Handles share: the
-- driver's batches stand in a store, by their place.
use cqlx.Common.{ℕ, Bytes, List, [], ◌∷◌, ◌++◌, Bool, Option, none, some, length}
use cqlx.Queryx.{◌>>=◌, get_elem?, set_elem}

-- `none` is the nil context.
pub record Batch (C : Type 0) : Type 0 where
  pub batch : ℕ
  pub ctx : Option C

-- The methods of the driver's batch, by what each is given: they change the batch.
pub record DriverBatch (D A O R P S T : Type 0) : Type 0 where
  pub consistency : ℕ → D → D
  pub default_timestamp : Bool → D → D
  pub observer : O → D → D
  pub retry_policy : R → D → D
  pub serial_consistency : ℕ → D → D
  pub set_keyspace : Bytes → D → D
  pub speculative_execution_policy : P → D → D
  pub trace : T → D → D
  pub with_now_in_seconds : S → D → D
  pub with_timestamp : S → D → D
  pub query : Bytes → List A → D → D

unfoldable pub ctx_or_background : {C : Type 0} → C → Batch C → C
ctx_or_background background b = elim b.ctx [ none ↦ background | some ctx ↦ ctx ]

unfoldable pub with_context : {C : Type 0} → Option C → Batch C → Batch C
with_context ctx b = record { batch = b.batch; ctx = ctx }

module _ {C D : Type 0} where
  -- `Session.Batch`, and `NewBatch`, where `made` is the driver's new batch.
  unfoldable pub new_batch : D → List D → Batch C × List D
  new_batch made batches = (record { batch = length batches; ctx = none }, batches ++ made ∷ [])

  unfoldable pub context_batch : Option C → D → List D → Batch C × List D
  context_batch ctx made batches =
      (record { batch = length batches; ctx = ctx }, batches ++ made ∷ [])

  -- A method of the driver's batch, on the one that the handle is on. `none` is where there is none.
  unfoldable pub on_batch : (D → D) → Batch C → List D → Option (List D)
  unfolding get_elem? set_elem
  on_batch f b batches = do d ← get_elem? batches b.batch; set_elem batches b.batch (f d)

module _ {C D A O R P S T : Type 0} (driver : DriverBatch D A O R P S T) where
  unfoldable pub consistency : ℕ → Batch C → List D → Option (List D)
  unfolding on_batch
  consistency c = on_batch (driver.consistency c)

  unfoldable pub default_timestamp : Bool → Batch C → List D → Option (List D)
  unfolding on_batch
  default_timestamp enable = on_batch (driver.default_timestamp enable)

  unfoldable pub observer : O → Batch C → List D → Option (List D)
  unfolding on_batch
  observer o = on_batch (driver.observer o)

  unfoldable pub retry_policy : R → Batch C → List D → Option (List D)
  unfolding on_batch
  retry_policy policy = on_batch (driver.retry_policy policy)

  unfoldable pub serial_consistency : ℕ → Batch C → List D → Option (List D)
  unfolding on_batch
  serial_consistency cons = on_batch (driver.serial_consistency cons)

  unfoldable pub set_keyspace : Bytes → Batch C → List D → Option (List D)
  unfolding on_batch
  set_keyspace keyspace = on_batch (driver.set_keyspace keyspace)

  unfoldable pub speculative_execution_policy : P → Batch C → List D → Option (List D)
  unfolding on_batch
  speculative_execution_policy policy = on_batch (driver.speculative_execution_policy policy)

  unfoldable pub trace : T → Batch C → List D → Option (List D)
  unfolding on_batch
  trace t = on_batch (driver.trace t)

  unfoldable pub with_now_in_seconds : S → Batch C → List D → Option (List D)
  unfolding on_batch
  with_now_in_seconds now = on_batch (driver.with_now_in_seconds now)

  unfoldable pub with_timestamp : S → Batch C → List D → Option (List D)
  unfolding on_batch
  with_timestamp timestamp = on_batch (driver.with_timestamp timestamp)

  unfoldable pub query : Bytes → List A → Batch C → List D → Option (List D)
  unfolding on_batch
  query stmt args = on_batch (driver.query stmt args)

module _ {C D W X : Type 0} (background : C) where
  -- `ExecuteBatch`, where `exec_context` is `ExecContext` of the driver's batch.
  unfoldable pub execute_batch : (C → D → W → X) → Batch C → List D → W → Option X
  unfolding ctx_or_background get_elem?
  execute_batch exec_context b batches w = do
    d ← get_elem? batches b.batch
    some (exec_context (ctx_or_background background b) d w)

  -- `ExecuteBatchCAS` and `MapExecuteBatchCAS`, with the destinations `dest` of each.
  unfoldable pub execute_batch_cas :
      {Y : Type 0} → (C → Y → D → W → X) → Batch C → Y → List D → W → Option X
  unfolding execute_batch
  execute_batch_cas exec_cas_context b dest batches w =
      execute_batch (λ ctx d. exec_cas_context ctx dest d) b batches w
