-- ===== src/Console.antt =====
-- The controller of PgConsole: the names of the objects it generates, and the evidence tokens.
pub mod Names
pub mod Objects
pub mod Labels
pub mod Gateway
pub mod ExposureObjects
pub mod Exposure
pub mod Bootstrap
pub mod ProxyConfig
pub mod Users
pub mod Tokens
