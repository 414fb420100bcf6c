-- ===== src/Errors.antt =====
-- crates/mailcore/src/error.rs: the variants of `StoreError` that the modelled code builds or
-- inspects. A message formatted from a row id keeps the id in place of its decimal digits.
use mailclient.Base.{ℕ, String, Bool}

pub data Message : Type 0 where
  -- "queue entry {id}"
  queue_entry : ℕ → Message
  -- "queue entry {id} has no MIME bytes"
  entry_without_mime : ℕ → Message
  -- "smtp envelope: {e}", of the error that lettre names
  smtp_envelope : String → Message
  text : String → Message

pub data StoreError : Type 0 where
  not_found : Message → StoreError
  invalid_input : Message → StoreError
  -- An SMTP failure, with `is_permanent()` of the transport's error.
  smtp : Bool → String → StoreError
  -- An address that does not parse.
  address : String → StoreError
