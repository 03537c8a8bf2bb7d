-- ===== src/Conversion.antt =====
-- api/v1beta1/conversion.go: the conversions between the spoke version v1beta1 and the hub v1beta2.
pub mod Spoke
pub mod Stash
pub mod Fields
pub mod Objects
pub mod RoundTrip
pub mod Edited
pub mod Others
