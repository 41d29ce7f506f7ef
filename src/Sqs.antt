-- ===== src/Sqs.antt =====
-- The SQS resources: the client pkg/clients/sqs and the controller pkg/controller/sqs/queue.
pub mod Json
pub mod Queue
