-- ===== src/AdminSync.antt =====
-- The pgAdmin synchronisation of internal/adminsync: the credential files, and the loop that brings
-- every account to the desired list of connections.
pub mod Passfile
pub mod Apply
