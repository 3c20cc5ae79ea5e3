-- ===== src/Commands.antt =====
-- src/commands: the operator's commands.
pub mod Registry
pub mod Texts
pub mod Selection
pub mod Nodes
pub mod PnpList
pub mod Diag
pub mod GetInfo
pub mod Defaults
