-- ===== src/Wechat.antt =====
-- internal/wechat: the access token, the push that uses it, and the messages at night.
pub mod Token
pub mod Goodnight
