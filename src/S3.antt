-- ===== src/S3.antt =====
-- S3 buckets: pkg/clients/s3/bucket.go, pkg/controller/s3/bucket.go and the clients of a bucket's
-- subresources in pkg/controller/s3/bucket.
pub mod Types
pub mod Client
pub mod Subresource
pub mod Versioning
pub mod Accelerate
pub mod Payment
pub mod Sse
pub mod Cors
pub mod Tagging
pub mod Bucket
pub mod Independence
