-- ===== src/Accounts.antt =====
-- src/accounts: the saved accounts.
pub mod Credential
pub mod Document
pub mod Locks
pub mod Oauth
pub mod Vault
pub mod Service
pub mod Choice
pub mod Input
