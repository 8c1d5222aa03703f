-- ===== src/Queryx/Configured.antt =====
-- Chains of the option calls of queryx_wrap.go.
use cqlx.Common.{ℤ, Bytes, List, Bool, ◌≡◌, refl, ap}
use cqlx.Queryx.Options.{
  DriverQuery, set_option, consistency, custom_payload, trace, observer, page_size,
  default_timestamp, with_timestamp, routing_key, prefetch, retry_policy,
  set_speculative_execution_policy, idempotent, serial_consistency, page_state, no_skip_metadata,
  set_host_id, set_keyspace, with_now_in_seconds,
}
use cqlx.Queryx.{Queryx}

-- Behind calls of options, of which each changes the query of the driver.
pub data Configured {S Q C F H : Type 0} (driver : DriverQuery Q C F H) (q : Queryx S Q)
    : (Q → Q) → Queryx S Q → Type 0 where
  as_made : Configured driver q (λ d. d) q
  to_consistency :
      {f : Q → Q} {q' : Queryx S Q} (c : C)
      → Configured driver q f q'
      → Configured driver q (λ d. driver.consistency c (f d)) (consistency driver c q')
  to_custom_payload :
      {f : Q → Q} {q' : Queryx S Q} (payload : List (Bytes × Bytes))
      → Configured driver q f q'
      → Configured driver q
          (λ d. driver.custom_payload payload (f d))
          (custom_payload driver payload q')
  to_trace :
      {f : Q → Q} {q' : Queryx S Q} (tracer : H)
      → Configured driver q f q'
      → Configured driver q (λ d. driver.trace tracer (f d)) (trace driver tracer q')
  to_observer :
      {f : Q → Q} {q' : Queryx S Q} (o : H)
      → Configured driver q f q'
      → Configured driver q (λ d. driver.observer o (f d)) (observer driver o q')
  to_page_size :
      {f : Q → Q} {q' : Queryx S Q} (n : ℤ)
      → Configured driver q f q'
      → Configured driver q (λ d. driver.page_size n (f d)) (page_size driver n q')
  to_default_timestamp :
      {f : Q → Q} {q' : Queryx S Q} (enable : Bool)
      → Configured driver q f q'
      → Configured driver q
          (λ d. driver.default_timestamp enable (f d))
          (default_timestamp driver enable q')
  to_with_timestamp :
      {f : Q → Q} {q' : Queryx S Q} (timestamp : ℤ)
      → Configured driver q f q'
      → Configured driver q
          (λ d. driver.with_timestamp timestamp (f d))
          (with_timestamp driver timestamp q')
  to_routing_key :
      {f : Q → Q} {q' : Queryx S Q} (key : Bytes)
      → Configured driver q f q'
      → Configured driver q (λ d. driver.routing_key key (f d)) (routing_key driver key q')
  to_prefetch :
      {f : Q → Q} {q' : Queryx S Q} (p : F)
      → Configured driver q f q'
      → Configured driver q (λ d. driver.prefetch p (f d)) (prefetch driver p q')
  to_retry_policy :
      {f : Q → Q} {q' : Queryx S Q} (r : H)
      → Configured driver q f q'
      → Configured driver q (λ d. driver.retry_policy r (f d)) (retry_policy driver r q')
  to_set_speculative_execution_policy :
      {f : Q → Q} {q' : Queryx S Q} (sp : H)
      → Configured driver q f q'
      → Configured driver q
          (λ d. driver.set_speculative_execution_policy sp (f d))
          (set_speculative_execution_policy driver sp q')
  to_idempotent :
      {f : Q → Q} {q' : Queryx S Q} (value : Bool)
      → Configured driver q f q'
      → Configured driver q (λ d. driver.idempotent value (f d)) (idempotent driver value q')
  to_serial_consistency :
      {f : Q → Q} {q' : Queryx S Q} (cons : C)
      → Configured driver q f q'
      → Configured driver q
          (λ d. driver.serial_consistency cons (f d))
          (serial_consistency driver cons q')
  to_page_state :
      {f : Q → Q} {q' : Queryx S Q} (state : Bytes)
      → Configured driver q f q'
      → Configured driver q (λ d. driver.page_state state (f d)) (page_state driver state q')
  to_no_skip_metadata :
      {f : Q → Q} {q' : Queryx S Q}
      → Configured driver q f q'
      → Configured driver q (λ d. driver.no_skip_metadata (f d)) (no_skip_metadata driver q')
  to_set_host_id :
      {f : Q → Q} {q' : Queryx S Q} (host_id : Bytes)
      → Configured driver q f q'
      → Configured driver q (λ d. driver.set_host_id host_id (f d)) (set_host_id driver host_id q')
  to_set_keyspace :
      {f : Q → Q} {q' : Queryx S Q} (keyspace : Bytes)
      → Configured driver q f q'
      → Configured driver q
          (λ d. driver.set_keyspace keyspace (f d))
          (set_keyspace driver keyspace q')
  to_with_now_in_seconds :
      {f : Q → Q} {q' : Queryx S Q} (now : ℤ)
      → Configured driver q f q'
      → Configured driver q
          (λ d. driver.with_now_in_seconds now (f d))
          (with_now_in_seconds driver now q')

-- Such calls leave the names, the transformer, the mode and the error.
pub Configured-set_option :
    {S Q C F H : Type 0} (driver : DriverQuery Q C F H) (q : Queryx S Q) {f : Q → Q}
    {q' : Queryx S Q}
    → Configured driver q f q'
    → q' ≡ set_option f q
unfolding set_option consistency custom_payload trace observer page_size default_timestamp
    with_timestamp routing_key prefetch retry_policy set_speculative_execution_policy idempotent
    serial_consistency page_state no_skip_metadata set_host_id set_keyspace with_now_in_seconds
Configured-set_option driver q as_made = refl
Configured-set_option driver q (to_consistency c conf) =
    ap (consistency driver c) (Configured-set_option driver q conf)
Configured-set_option driver q (to_custom_payload payload conf) =
    ap (custom_payload driver payload) (Configured-set_option driver q conf)
Configured-set_option driver q (to_trace tracer conf) =
    ap (trace driver tracer) (Configured-set_option driver q conf)
Configured-set_option driver q (to_observer o conf) =
    ap (observer driver o) (Configured-set_option driver q conf)
Configured-set_option driver q (to_page_size n conf) =
    ap (page_size driver n) (Configured-set_option driver q conf)
Configured-set_option driver q (to_default_timestamp enable conf) =
    ap (default_timestamp driver enable) (Configured-set_option driver q conf)
Configured-set_option driver q (to_with_timestamp timestamp conf) =
    ap (with_timestamp driver timestamp) (Configured-set_option driver q conf)
Configured-set_option driver q (to_routing_key key conf) =
    ap (routing_key driver key) (Configured-set_option driver q conf)
Configured-set_option driver q (to_prefetch p conf) =
    ap (prefetch driver p) (Configured-set_option driver q conf)
Configured-set_option driver q (to_retry_policy r conf) =
    ap (retry_policy driver r) (Configured-set_option driver q conf)
Configured-set_option driver q (to_set_speculative_execution_policy sp conf) =
    ap (set_speculative_execution_policy driver sp) (Configured-set_option driver q conf)
Configured-set_option driver q (to_idempotent value conf) =
    ap (idempotent driver value) (Configured-set_option driver q conf)
Configured-set_option driver q (to_serial_consistency cons conf) =
    ap (serial_consistency driver cons) (Configured-set_option driver q conf)
Configured-set_option driver q (to_page_state state conf) =
    ap (page_state driver state) (Configured-set_option driver q conf)
Configured-set_option driver q (to_no_skip_metadata conf) =
    ap (no_skip_metadata driver) (Configured-set_option driver q conf)
Configured-set_option driver q (to_set_host_id host_id conf) =
    ap (set_host_id driver host_id) (Configured-set_option driver q conf)
Configured-set_option driver q (to_set_keyspace keyspace conf) =
    ap (set_keyspace driver keyspace) (Configured-set_option driver q conf)
Configured-set_option driver q (to_with_now_in_seconds now conf) =
    ap (with_now_in_seconds driver now) (Configured-set_option driver q conf)
