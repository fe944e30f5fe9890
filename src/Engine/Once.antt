-- ===== src/Engine/Once.antt =====
-- A callback is taken once (src/process/unified_message_manager.go), with the executions that it ends
-- with.
use atom_engine.Token.{Token}
use atom_engine.Engine.{Engine}
