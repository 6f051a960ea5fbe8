-- ===== src/Crud.antt =====
-- The database operations of src/app/crud, a module for each table.
pub mod WorkOrders
pub mod Contracts
pub mod Invoices
pub mod AuditEvents
pub mod Payments
pub mod Assets
pub mod AssetCategories
pub mod FormTemplates
pub mod CustomFields
pub mod ApiKeys
pub mod BusinessProfile
pub mod PdfTemplates
pub mod ApiCallLogs
pub mod Triggers
pub mod WebhookDeliveries
