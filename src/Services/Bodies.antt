-- ===== src/Services/Bodies.antt =====
-- The JSON objects that the methods send: one record and its fields for each parameters type.
pub mod Advisor
pub mod Ai
pub mod ApiKeys
pub mod Auth
pub mod Billing
pub mod CampaignSteps
pub mod Campaigns
pub mod Contacts
pub mod Crm
pub mod Emails
pub mod Forms
pub mod Integrations
pub mod LeadSync
pub mod OauthApps
pub mod Organization
pub mod Outreach
pub mod PoolLink
pub mod Segments
pub mod Teams
pub mod Templates
pub mod Unibox
pub mod WebhookEndpoints
pub mod WebsiteTracking
