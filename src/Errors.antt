-- ===== src/Errors.antt =====
-- What a service answers when something fails: src/tr_shared/exceptions.py, the error envelope and the
-- exception handlers.
pub mod Envelope
pub mod Exceptions
pub mod Handlers
