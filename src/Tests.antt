-- ===== src/Tests.antt =====
-- Concrete instances of the parameters, and the theorems at inputs that exercise the code.
mod Model
mod AwsTests
mod SnsTests
mod SnsRemoval
mod TopicTests
mod S3Model
mod S3Tests
mod S3Together
mod SqsTests
mod RouteTableTests
mod RouteTests
mod SecurityGroupTests
mod PolicyTests
mod AttachmentTests
mod ElbTests
mod QueueRoundTrip
