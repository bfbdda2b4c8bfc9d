-- ===== src/Services.antt =====
-- The resource services: the requests that their methods send, and the loops that wait for an approval.
pub mod Account
pub mod Advisor
pub mod AgentTools
pub mod Analytics
pub mod ApiKeys
pub mod Arguments
pub mod Assistant
pub mod AuditLogs
pub mod Automations
pub mod Billing
pub mod Bodies
pub mod Call
pub mod CampaignSteps
pub mod Campaigns
pub mod CloudLink
pub mod Contacts
pub mod Crm
pub mod Deliverability
pub mod EmailAccounts
pub mod Emails
pub mod Escape
pub mod Examples
pub mod Forms
pub mod Generation
pub mod Groups
pub mod Integrations
pub mod LeadSync
pub mod Meetings
pub mod Meta
pub mod OauthApps
pub mod Organization
pub mod Outreach
pub mod Params
pub mod Polling
pub mod PoolLink
pub mod Query
pub mod Segments
pub mod SignIn
pub mod Skills
pub mod Suppressions
pub mod Table
pub mod Tasks
pub mod Teams
pub mod Templates
pub mod Unibox
pub mod Uploads
pub mod Searches
pub mod Status
pub mod WarmupRouting
pub mod WebhookEndpoints
pub mod WebsiteTracking
pub mod Workspace
