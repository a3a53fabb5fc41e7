-- ===== src/ConfigManager.antt =====
-- ocpp1.6/configmanager: the configuration keys of a charge point and their manager. The mutex makes
-- each exported method one step. A `*string` is an address in a memory of texts, so that copies and
-- shared pointers differ as they do in Go. A slice is a list: nil and empty slices are not told
-- apart. An update handler and a validator are functions of the consumer.
pub mod Memory
pub mod Config
pub mod Keys
pub mod Manager
pub mod Defaults
pub mod Wiring
mod Tests
