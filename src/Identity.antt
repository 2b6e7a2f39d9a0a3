-- ===== src/Identity.antt =====
-- api/src/identity: numbers, one-time passwords, users and their roles, and the services over them.
pub mod Numbers
pub mod Canonical
pub mod Users
pub mod Kyc
pub mod Onboarding
pub mod Verified
pub mod Held
pub mod Submission
pub mod Submitted
pub mod Registration
pub mod Steps
pub mod Roles
pub mod Switched
pub mod Otp
pub mod Acceptance
mod Tests
mod KycTests
mod RoleTests
