-- ===== src/Tests.antt =====
-- The theorems at concrete inputs, and runs of the definitions, one module for each part.
mod Validators
mod Orders
mod Access
mod StatusService
mod Files
mod Requests
mod Payments
mod Paging
mod Entry
mod Passwords
mod FirstPassword
mod PublicForms
mod Dashboard
mod Users
