-- ===== src/Sns.antt =====
-- The SNS resources: the clients pkg/clients/sns and the controllers pkg/controller/notification.
pub mod Attributes
pub mod Subscription
pub mod Topic
