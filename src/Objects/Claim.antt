-- ===== src/Objects/Claim.antt =====
-- The IPAM contract's IPAddressClaim and IPAddress.
use cluster_api_provider_tin.Prelude.{String, Option}
use cluster_api_provider_tin.Objects.Meta.{ObjectMeta, Int32}
use cluster_api_provider_tin.Objects.Provider.{IpPoolReference}

pub record IpAddressClaim : Type 0 where
  pub meta : ObjectMeta
  pub cluster_name : String
  pub pool_ref : IpPoolReference
  pub address_ref : String

pub record IpAddress : Type 0 where
  pub meta : ObjectMeta
  pub address : String
  pub prefix : Option Int32
  pub gateway : String
