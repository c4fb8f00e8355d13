-- ===== src/Model.antt =====
-- Data model and error types shared by the storage adapters (crates/thingd/src/model.rs, error.rs).
-- Texts are their UTF-8 bytes. An error keeps its variant and drops the text of its message.
use thingd.Base.{ℕ, Bytes, Option, none, []}
use thingd.Base.Int.{ℤ, pos}

pub data ThingdError : Type 0 where
  invalid_input not_found conflict protected storage : ThingdError
  encryption_required invalid_encryption_key encryption_authentication : ThingdError
  unsupported_encryption_version unsupported_storage_format : ThingdError
  storage_validation encryption_migration : ThingdError

pub data ThingdResult {ℓ} (A : Type ℓ) : Type ℓ where
  ok : A → ThingdResult A
  err : ThingdError → ThingdResult A

pub data QueueJobStatus : Type 0 where
  ready leased completed dead : QueueJobStatus

pub record QueueJob : Type 0 where
  pub queue : Bytes
  pub id : Bytes
  pub body : Bytes
  pub attempts : ℕ
  pub max_attempts : ℕ
  pub status : QueueJobStatus
  pub available_at_ms : ℤ
  pub leased_at_ms : Option ℤ
  pub lease_expires_at_ms : Option ℤ
  pub completed_at_ms : Option ℤ
  pub dead_at_ms : Option ℤ
  pub created_at : Bytes
  pub last_error : Bytes
  pub priority : ℤ

-- `QueueJob::new`
unfoldable pub new_job : Bytes → Bytes → Bytes → ℕ → QueueJob
new_job queue id body max_attempts = record {
  queue = queue;
  id = id;
  body = body;
  attempts = 0;
  max_attempts = max_attempts;
  status = ready;
  available_at_ms = pos 0;
  leased_at_ms = none;
  lease_expires_at_ms = none;
  completed_at_ms = none;
  dead_at_ms = none;
  created_at = [];
  last_error = [];
  priority = pos 0;
}

pub record QueueClaimOptions : Type 0 where
  pub lease_ms : ℕ

pub record QueueNackOptions : Type 0 where
  pub delay_ms : ℕ
  pub error : Bytes

pub record MemoryEvent : Type 0 where
  pub stream : Bytes
  pub event_type : Bytes
  pub body : Bytes
  pub sequence : ℕ
  pub created_at : Bytes
  pub idempotency_key : Bytes

-- `MemoryEvent::new`
unfoldable pub new_event : Bytes → Bytes → Bytes → MemoryEvent
new_event stream event_type body = record {
  stream = stream;
  event_type = event_type;
  body = body;
  sequence = 0;
  created_at = [];
  idempotency_key = [];
}

pub record ListEventsOptions : Type 0 where
  pub from_sequence : Option ℕ
  pub limit : Option ℕ
  pub since : Option Bytes
