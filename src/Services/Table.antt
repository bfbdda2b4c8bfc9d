-- ===== src/Services/Table.antt =====
-- The calls of all methods of the resource services that send no file.
pub mod ReadBack
use warmbly_go.Common.{List, ◌++◌}
use warmbly_go.Services.Call.{Call}
use warmbly_go.Services.Query.{Format}
use warmbly_go.Services.Arguments.{Arguments}
use warmbly_go.Services.Account
use warmbly_go.Services.Advisor
use warmbly_go.Services.AgentTools
use warmbly_go.Services.Analytics
use warmbly_go.Services.ApiKeys
use warmbly_go.Services.Assistant
use warmbly_go.Services.AuditLogs
use warmbly_go.Services.Automations
use warmbly_go.Services.Billing
use warmbly_go.Services.CampaignSteps
use warmbly_go.Services.Campaigns
use warmbly_go.Services.CloudLink
use warmbly_go.Services.Contacts
use warmbly_go.Services.Crm
use warmbly_go.Services.Deliverability
use warmbly_go.Services.EmailAccounts
use warmbly_go.Services.Emails
use warmbly_go.Services.Forms
use warmbly_go.Services.Generation
use warmbly_go.Services.Groups
use warmbly_go.Services.Integrations
use warmbly_go.Services.LeadSync
use warmbly_go.Services.Meetings
use warmbly_go.Services.Meta
use warmbly_go.Services.OauthApps
use warmbly_go.Services.Organization
use warmbly_go.Services.Outreach
use warmbly_go.Services.PoolLink
use warmbly_go.Services.Segments
use warmbly_go.Services.SignIn
use warmbly_go.Services.Skills
use warmbly_go.Services.Suppressions
use warmbly_go.Services.Tasks
use warmbly_go.Services.Teams
use warmbly_go.Services.Templates
use warmbly_go.Services.Unibox
use warmbly_go.Services.WarmupRouting
use warmbly_go.Services.WebhookEndpoints
use warmbly_go.Services.WebsiteTracking
use warmbly_go.Services.Workspace

unfoldable pub all_calls : {T : Type 0} → Format T → Arguments T → List Call
all_calls format a =
    Account.calls format a
    ++ Advisor.calls format a
    ++ AgentTools.calls format a
    ++ Analytics.calls format a
    ++ ApiKeys.calls format a
    ++ Assistant.calls format a
    ++ AuditLogs.calls format a
    ++ Automations.calls format a
    ++ Billing.calls format a
    ++ CampaignSteps.calls format a
    ++ Campaigns.calls format a
    ++ CloudLink.calls format a
    ++ Contacts.calls format a
    ++ Crm.calls format a
    ++ Deliverability.calls format a
    ++ EmailAccounts.calls format a
    ++ Emails.calls format a
    ++ Forms.calls format a
    ++ Generation.calls format a
    ++ Groups.calls format a
    ++ Integrations.calls format a
    ++ LeadSync.calls format a
    ++ Meetings.calls format a
    ++ Meta.calls format a
    ++ OauthApps.calls format a
    ++ Organization.calls format a
    ++ Outreach.calls format a
    ++ PoolLink.calls format a
    ++ Segments.calls format a
    ++ SignIn.calls format a
    ++ Skills.calls format a
    ++ Suppressions.calls format a
    ++ Tasks.calls format a
    ++ Teams.calls format a
    ++ Templates.calls format a
    ++ Unibox.calls format a
    ++ WarmupRouting.calls format a
    ++ WebhookEndpoints.calls format a
    ++ WebsiteTracking.calls format a
    ++ Workspace.calls format a
