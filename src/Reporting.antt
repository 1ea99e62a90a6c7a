-- ===== src/Reporting.antt =====
-- code/device-agent/common: what handlers report to the cloud, and how the errors of their operations
-- are collected. Here are the types that the parts share.
pub mod Errors
pub mod Summary
pub mod Operation
pub mod Schema
pub mod MetaData
pub mod Handler
pub mod Examples
use azure_client_tools.Base.{Text, ℤ, codes}

-- DMInterfaces.h.
pub data DeploymentStatus : Type 0 where
  succeeded not_started pending failed unknown : DeploymentStatus

pub record DmException : Type 0 where
  pub subsystem : Text
  pub code : ℤ
  pub message : Text

-- What a `catch` clause tells apart.
pub data Exception : Type 0 where
  dm : DmException → Exception
  std : Text → Exception
