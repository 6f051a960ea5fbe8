-- ===== src/Api.antt =====
-- The HTTP API, src/app/api: what each route does with its service.
pub mod Reply
pub mod Contracts
pub mod WorkOrders
pub mod Invoices
pub mod Payments
pub mod Assets
pub mod AssetCategories
pub mod CustomFields
pub mod FormTemplates
pub mod PdfTemplates
pub mod BusinessProfile
pub mod Logs
pub mod ApiKeys
pub mod Triggers
pub mod VendorPortal
pub mod Scheduling
pub mod Isolation
pub mod Serving
pub mod Mcp
