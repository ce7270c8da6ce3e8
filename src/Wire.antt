-- ===== src/Wire.antt =====
-- kira-r2kad/src/domain/protocol_message/wire/: the parts of a message that are the same for all kinds.
mod Tests
pub mod Kind
pub mod Header
pub mod Object
