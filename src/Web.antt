-- ===== src/Web.antt =====
-- pat-service/web/src: the dashboard of personal access tokens and the administration console.
pub mod Format
pub mod Units
pub mod Heatmap
pub mod Pages
pub mod Journal
pub mod Users
pub mod Detail
pub mod Replies
pub mod Dashboard
pub mod Admin
