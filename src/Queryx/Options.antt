-- ===== src/Queryx/Options.antt =====
-- queryx_wrap.go: the methods that set an option of the query of the driver, and of queryx.go those
-- that set one of the query itself.
use cqlx.Common.{ℤ, Bytes, List, Bool, true, Option}
use cqlx.Queryx.{Transformer, BindError, Queryx}

-- The methods of the driver's query: they change the query. `C` are its levels of consistency, `F`
-- numbers of type float64, and `H` what it calls back: tracers, observers and policies.
pub record DriverQuery (Q C F H : Type 0) : Type 0 where
  pub consistency : C → Q → Q
  pub custom_payload : List (Bytes × Bytes) → Q → Q
  pub trace : H → Q → Q
  pub observer : H → Q → Q
  pub page_size : ℤ → Q → Q
  pub default_timestamp : Bool → Q → Q
  pub with_timestamp : ℤ → Q → Q
  pub routing_key : Bytes → Q → Q
  pub prefetch : F → Q → Q
  pub retry_policy : H → Q → Q
  pub set_speculative_execution_policy : H → Q → Q
  pub idempotent : Bool → Q → Q
  pub serial_consistency : C → Q → Q
  pub page_state : Bytes → Q → Q
  pub no_skip_metadata : Q → Q
  pub set_host_id : Bytes → Q → Q
  pub set_keyspace : Bytes → Q → Q
  pub with_now_in_seconds : ℤ → Q → Q

-- `q.Query.X(v)` and `return q`.
unfoldable pub set_option : {S Q : Type 0} → (Q → Q) → Queryx S Q → Queryx S Q
set_option f q = record q { query = f q.query }

module _ {S Q C F H : Type 0} (driver : DriverQuery Q C F H) where
  unfoldable pub consistency : C → Queryx S Q → Queryx S Q
  unfolding set_option
  consistency c q = set_option (driver.consistency c) q

  unfoldable pub custom_payload : List (Bytes × Bytes) → Queryx S Q → Queryx S Q
  unfolding set_option
  custom_payload payload q = set_option (driver.custom_payload payload) q

  unfoldable pub trace : H → Queryx S Q → Queryx S Q
  unfolding set_option
  trace tracer q = set_option (driver.trace tracer) q

  unfoldable pub observer : H → Queryx S Q → Queryx S Q
  unfolding set_option
  observer o q = set_option (driver.observer o) q

  unfoldable pub page_size : ℤ → Queryx S Q → Queryx S Q
  unfolding set_option
  page_size n q = set_option (driver.page_size n) q

  unfoldable pub default_timestamp : Bool → Queryx S Q → Queryx S Q
  unfolding set_option
  default_timestamp enable q = set_option (driver.default_timestamp enable) q

  unfoldable pub with_timestamp : ℤ → Queryx S Q → Queryx S Q
  unfolding set_option
  with_timestamp timestamp q = set_option (driver.with_timestamp timestamp) q

  unfoldable pub routing_key : Bytes → Queryx S Q → Queryx S Q
  unfolding set_option
  routing_key key q = set_option (driver.routing_key key) q

  unfoldable pub prefetch : F → Queryx S Q → Queryx S Q
  unfolding set_option
  prefetch p q = set_option (driver.prefetch p) q

  unfoldable pub retry_policy : H → Queryx S Q → Queryx S Q
  unfolding set_option
  retry_policy r q = set_option (driver.retry_policy r) q

  unfoldable pub set_speculative_execution_policy : H → Queryx S Q → Queryx S Q
  unfolding set_option
  set_speculative_execution_policy sp q = set_option (driver.set_speculative_execution_policy sp) q

  unfoldable pub idempotent : Bool → Queryx S Q → Queryx S Q
  unfolding set_option
  idempotent value q = set_option (driver.idempotent value) q

  unfoldable pub serial_consistency : C → Queryx S Q → Queryx S Q
  unfolding set_option
  serial_consistency cons q = set_option (driver.serial_consistency cons) q

  unfoldable pub page_state : Bytes → Queryx S Q → Queryx S Q
  unfolding set_option
  page_state state q = set_option (driver.page_state state) q

  unfoldable pub no_skip_metadata : Queryx S Q → Queryx S Q
  unfolding set_option
  no_skip_metadata q = set_option driver.no_skip_metadata q

  unfoldable pub set_host_id : Bytes → Queryx S Q → Queryx S Q
  unfolding set_option
  set_host_id host_id q = set_option (driver.set_host_id host_id) q

  unfoldable pub set_keyspace : Bytes → Queryx S Q → Queryx S Q
  unfolding set_option
  set_keyspace keyspace q = set_option (driver.set_keyspace keyspace) q

  unfoldable pub with_now_in_seconds : ℤ → Queryx S Q → Queryx S Q
  unfolding set_option
  with_now_in_seconds now q = set_option (driver.with_now_in_seconds now) q

module _ {S Q : Type 0} where
  unfoldable pub with_bind_transformer : Option (Transformer S) → Queryx S Q → Queryx S Q
  with_bind_transformer tr q = record q { tr = tr }

  unfoldable pub strict : Queryx S Q → Queryx S Q
  strict q = record q { strict = true }

  unfoldable pub err : Queryx S Q → Option BindError
  err q = q.err
