-- ===== src/Server.antt =====
-- The server's services over the task layer: subscriptions, authorizations and access control.
pub mod Subscriber
pub mod Subscriptions
pub mod Authorization
pub mod Security
pub mod SqlIdentifier
pub mod Validators
pub mod TaskId
