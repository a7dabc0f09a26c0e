-- ===== src/Credentials.antt =====
-- app/credentials.py and app/timeutil.py: turning a credential row into the secret to send.
-- The world holds the rows, the credential files, the clock and the refresh tokens posted to a
-- token endpoint. What is not under the repository's control is a parameter: `claims` (the payload
-- of a token, decoded, empty where it cannot be), `grant` (what a token endpoint answers to a
-- refresh token) and `stamp` (a time as text). Tokens in a file are texts; a value of another kind
-- in their place is read as missing.
pub mod World
pub mod Files
pub mod Resolve
pub mod Rules
pub mod Failures
pub mod Reuse
mod Tests
