-- ===== src/Scenarios.antt =====
-- Concrete inputs: tests of the definitions, and each theorem with a hypothesis at an input where it
-- holds. `Sample` holds the data and concrete stand-ins for the parameters.
mod Sample
mod ProxyConfig
mod Sessions
mod Proxy
mod Logins
mod Consoles
mod Rendering
mod Serving
mod Requests
mod Watching
mod Exposing
mod Flows
mod Tokens
mod Sync
