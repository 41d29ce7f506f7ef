-- ===== src/Ec2.antt =====
-- The EC2 resources: the clients pkg/clients/ec2 and the controllers pkg/controller/ec2.
pub mod RouteTable
pub mod SecurityGroup
