-- ===== src/Lib.antt =====
-- A verification library for provider-aws, the Crossplane provider for AWS.
--
-- The provider runs one controller for each kind of AWS resource. A controller is a set of four
-- operations on a managed Kubernetes object, Observe, Create, Update and Delete, that the reconciler
-- of crossplane-runtime calls, and a package under pkg/clients has the pure functions that the
-- operations share: they turn the spec into requests, compare it with a response, fill what the spec
-- leaves open, and tell the errors apart. The reconciler calls Update when Observe reports that a
-- resource exists and is not up to date, so that what makes a controller correct is that its
-- operations converge: what Update has done without an error, the next Observe finds up to date.
--
-- How the code is modelled:
-- - An operation is a function from the object and the state of the service to its results, the object
--   and the service afterwards. The state of the service is a type parameter, and the requests of the
--   SDK are functions on it in a record (SubscriptionClient, BucketClient and so on), so
--   that every result and every error of a request is covered. The documented behaviour of the
--   service is a record of laws (AttributeService, ConfigService, DeletableService, BucketService,
--   QueueService, AssociationService, RouteService and so on) that only the theorems which need it
--   take, and Tests has a concrete service for each.
-- - Flow.antt is the control flow of an operation: statements in sequence, early returns, requests,
--   loops with an early return, and the type assertion on the managed object.
-- - Runtime.antt has what the code calls of crossplane-runtime and of the SDK's error package, as the
--   parameters of the model: errors, external names and conditions.
-- - StringMap.antt is map[string]string, as a list in the order of one run of range; Prelude/Int.antt
--   and Strconv.antt are Go's int64 with ParseInt, ParseBool and FormatInt, and Sqs/Json.antt is
--   json.Marshal where it is used. A loop runs over a list, and needs no fuel; FormatInt writes at most
--   19 digits, which the values of int64 fit.
--
-- Which file models which code:
-- - Aws/Errors.antt, Aws/Pointers.antt, Aws/Tags.antt: pkg/clients/aws.go (CleanError, Wrap; String,
--   Int64, Bool, their values and late initialization; DiffTags, DiffLabels, DiffEC2Tags).
-- - Sns/Subscription.antt, Sns/Topic.antt: pkg/clients/sns; their Controller.antt:
--   pkg/controller/notification.
-- - S3/Client.antt: pkg/clients/s3/bucket.go; S3/Bucket.antt: pkg/controller/s3/bucket.go;
--   S3/Subresource.antt and the files Versioning, Payment, Accelerate, Sse, Cors and Tagging beside it:
--   pkg/controller/s3/bucket. The controller is modelled over any list of subresource clients, as the
--   code is. Each client has a contract (S3/Subresource.antt), and S3/Bucket/Converge.antt has the loops
--   of the controller over clients that keep theirs and do not undo one another, of which
--   S3/Independence.antt and the files below it have the proof for the six. The slices of a CORS rule
--   are nil or a list, since the code tells an empty one from nil; elsewhere a slice is a list.
-- - Sqs/Queue.antt: pkg/clients/sqs/queue.go; Sqs/Queue/Controller.antt: pkg/controller/sqs/queue.
--   Sqs/Queue/RoundTrip.antt puts the two directions of the attributes of a queue together.
-- - Iam/Policy.antt: pkg/clients/iam/iampolicy.go; Iam/Policy/Versions.antt and
--   Iam/Policy/Controller.antt: pkg/controller/identity/iampolicy, where History.antt has the calls of
--   the controller in any order as a step relation. What Go's encoding/json and net/url do for
--   CompactAndEscapeJSON (Aws/Json.antt) is a parameter.
-- - Membership.antt: what a controller promises whose external resource is one fact of the service;
--   Iam/Attachment.antt and the files GroupPolicy, UserPolicy, RolePolicy and GroupUser beside it:
--   pkg/controller/identity/iamgrouppolicyattachment, iamuserpolicyattachment,
--   iamrolepolicyattachment and iamgroupusermembership.
-- - Elb.antt and Elb/Patch.antt: pkg/clients/elasticloadbalancing/elb/elb.go; Elb/Controller.antt and
--   Elb/Attachment.antt: pkg/controller/elasticloadbalancing. What jsonpatch makes of the JSON of two
--   structures is a parameter.
-- - Ec2/RouteTable.antt and Ec2/RouteTable/Routes.antt: pkg/controller/ec2/routetable/controller.go, its
--   associations, Create and Delete, and its routes.
-- - Ec2/SecurityGroup.antt and Ec2/SecurityGroup/LateInit.antt: pkg/clients/ec2/securitygroup.go, the
--   rules in both directions and late initialization. A panic is none.
--
-- Not modelled: the registration of the controllers and the connection to AWS, which is glue; the
-- generated code under apis and in the ACK controllers; the subresources of buckets for lifecycle,
-- logging, notification, replication and website; the Observe and Update of route tables, which go
-- through a JSON merge patch, as does the comparison of security groups; and the controllers of the
-- other resources.
pub mod Prelude
pub mod StringMap
pub mod Runtime
pub mod Flow
pub mod Aws
pub mod Strconv
pub mod Sns
pub mod S3
pub mod Sqs
pub mod Ec2
pub mod Membership
pub mod Iam
pub mod Elb
mod Tests
