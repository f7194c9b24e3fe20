-- ===== src/Publishing/Providers.antt =====
-- The providers of backend/app/publishing that post by the Graph API.
pub mod Graph
pub mod Token
pub mod Facebook
pub mod Instagram
pub mod Youtube
